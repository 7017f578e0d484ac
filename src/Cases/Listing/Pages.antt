-- ===== src/Cases/Listing/Pages.antt =====
-- The pages of a listing are the whole listing, and `has_more` tells whether rows are left.
use mathlib.Core.List.{Permᴰ}
use native.Mathlib.Nat.{le-div_iff_mul-le, lt-div-mul-add}
use revenue_rescue_ai.Common.{
  List, Option, [], ap, arith, drop, filter, length, map, map-append, nat_eq, refl, suc, sym, take,
  take-add, take_all, true, zero, ℕ, ◌&&◌, ◌*◌, ◌++◌, ◌+◌, ◌-◌, ◌<◌, ◌↔◌, ◌∙◌, ◌∷◌, ◌≡◌, ◌≤◌,
}
use revenue_rescue_ai.Enums.{RecoveryCaseState, recovery_case_state_eq}
use revenue_rescue_ai.Cases.Listing.{
  RecoveryCaseSummaryDto, fits, insert_case_by_time, list_cases, list_rows, newest_first,
  page_count, selected, to_summary,
}
use revenue_rescue_ai.Cases.Listing.Order.{NewestFirst, newest_first-NewestFirst, newest_first-Perm}
use revenue_rescue_ai.Domain.{RecoveryCase}
use revenue_rescue_ai.Store.{Store}

length-insert_case_by_time :
    (rank : RecoveryCase → ℕ) (c : RecoveryCase) (rs : List RecoveryCase)
    → length (insert_case_by_time rank c rs) ≡ length rs + 1
length-insert_case_by_time rank c [] = refl
length-insert_case_by_time rank c (r ∷ rs) = ground (arith, length-insert_case_by_time rank c rs)

length-newest_first :
    (rank : RecoveryCase → ℕ) (rs : List RecoveryCase) → length (newest_first rank rs) ≡ length rs
unfolding newest_first
length-newest_first rank [] = refl
length-newest_first rank (c ∷ rs) =
    omega
      (arith, length-insert_case_by_time rank c (newest_first rank rs), length-newest_first rank rs)

page_count-covers : (total size : ℕ) → 1 ≤ size → total ≤ page_count total size * size
unfolding page_count
page_count-covers total size h =
    ground (arith, lt-div-mul-add {a = total + (size - 1)} {b = size} h)

-- There are more pages exactly if the rows of this and the earlier pages are not all.
page_count-more :
    (page total size : ℕ) → 1 ≤ size → (page < page_count total size) ↔ (page * size < total)
unfolding page_count
page_count-more page total size h =
    ground (arith, le-div_iff_mul-le {k = size} {x = page + 1} {y = total + (size - 1)} h)

-- The items of the first `n` pages, one page after the other
abbrev pub first_pages :
    (RecoveryCase → ℕ)
    → Option RecoveryCaseState
    → Option ℕ
    → ℕ
    → ℕ
    → Store
    → List RecoveryCaseSummaryDto
unfolding list_cases
first_pages rank state customer_id size zero s = []
first_pages rank state customer_id size (suc n) s =
    first_pages rank state customer_id size n s
    ++ (list_cases rank state customer_id (suc n) size s).items

next_offset : (n size : ℕ) → (suc n - 1) * size ≡ n * size
next_offset n size = ap (λ k. k * size) (omega arith)

next_end : (n size : ℕ) → n * size + size ≡ suc n * size
next_end n size = omega arith

no_rows : (size : ℕ) → 0 * size ≡ 0
no_rows size = omega arith

first_pages-take :
    (rank : RecoveryCase → ℕ) (state : Option RecoveryCaseState) (customer_id : Option ℕ)
    (size n : ℕ) (s : Store)
    → first_pages rank state customer_id size n s
      ≡ map to_summary (take (n * size) (newest_first rank (selected state customer_id s)))
unfolding list_cases list_rows
first_pages-take rank state customer_id size zero s = rw (no_rows size) refl
first_pages-take rank state customer_id size (suc n) s =
    let rows = newest_first rank (selected state customer_id s) in
    rw
      (
        first_pages-take rank state customer_id size n s,
        next_offset n size,
        ← map-append to_summary (take (n * size) rows) (take size (drop (n * size) rows)),
        take-add (n * size) size rows,
        next_end n size,
      )
      refl

-- Where the database breaks ties in the same way in every query, the pages of a listing, one after the
-- other, are the cases with the state and the customer that were asked for, newest first, each once;
-- and a page says that there are more exactly if the rows up to its end are not all.
pub list_cases_complete :
    (rank : RecoveryCase → ℕ) (state : Option RecoveryCaseState) (customer_id : Option ℕ)
    → (page size : ℕ) (s : Store) → 1 ≤ size
    → let answer = list_cases rank state customer_id page size s in
      (rows : List RecoveryCase) × (first_pages rank state customer_id size answer.pages s
        ≡ map to_summary rows)
      × NewestFirst rows
      × Permᴰ rows (filter (λ c. fits state c.state && fits customer_id c.customer_id) s.cases)
      × ((answer.has_more ≡ true) ↔ (page * size < length rows))
      × (answer.total ≡ length rows)
unfolding list_cases selected
list_cases_complete rank state customer_id page size s h =
    let found = selected state customer_id s in
    let total = length found in
    let same = length-newest_first rank found in
    let covers = page_count-covers total size h in
    (
      newest_first rank found,
      first_pages-take rank state customer_id size (page_count total size) s
          ∙ rw
              (take_all (page_count total size * size) (newest_first rank found)
                (omega (arith, same, covers)))
              refl,
      newest_first-NewestFirst rank found,
      newest_first-Perm rank found,
      ground (arith, same, page_count-more page total size h),
      sym same,
    )
