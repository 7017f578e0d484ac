-- ===== src/Cases/Listing.antt =====
-- `RecoveryCaseService.list_cases` of backend/app/services/recovery_case_service.py, its query of
-- backend/app/repositories/recovery_cases.py, and the summary of the mapper. A page size is
-- between 1 and 100 and a page number at least 1: the schemas refuse others. The query leaves open
-- how the database orders cases that were opened at the same time: `rank` stands for its choice.
pub mod Order
pub mod Pages
use revenue_rescue_ai.Common.{
  Bool, Eq, List, Option, String, [], drop, filter, if◌then◌else◌, leb, length, ltb, map, nat_eq,
  none, some, take, true, ℕ, ◌&&◌, ◌*◌, ◌+◌, ◌-◌, ◌/◌, ◌==◌, ◌||◌, ◌∷◌,
}
use revenue_rescue_ai.Enums.{RecoveryCaseState, recovery_case_state_eq}
use revenue_rescue_ai.Domain.{RecoveryCase}
use revenue_rescue_ai.Store.{Store}

pub record RecoveryCaseSummaryDto : Type 0 where
  pub id : ℕ
  pub case_key : String
  pub customer_id : ℕ
  pub trigger_transaction_id : ℕ
  pub state : RecoveryCaseState
  pub priority : ℕ
  pub opened_at : ℕ
  pub last_state_changed_at : ℕ
  pub closed_at : Option ℕ

-- `RecoveryCaseMapper.to_summary`
abbrev pub to_summary : RecoveryCase → RecoveryCaseSummaryDto
to_summary c = record {
  id = c.id;
  case_key = c.case_key;
  customer_id = c.customer_id;
  trigger_transaction_id = c.trigger_transaction_id;
  state = c.state;
  priority = c.priority;
  opened_at = c.opened_at;
  last_state_changed_at = c.last_state_changed_at;
  closed_at = c.closed_at;
}

pub record PaginatedResponse : Type 0 where
  pub items : List RecoveryCaseSummaryDto
  pub total : ℕ
  pub page : ℕ
  pub size : ℕ
  pub pages : ℕ
  pub has_more : Bool

-- `order_by(opened_at.desc())`, and the database's choice for cases opened at the same time
abbrev pub comes_first : (RecoveryCase → ℕ) → RecoveryCase → RecoveryCase → Bool
comes_first rank c r =
    ltb r.opened_at c.opened_at || (r.opened_at == c.opened_at && leb (rank c) (rank r))

abbrev pub insert_case_by_time :
    (RecoveryCase → ℕ) → RecoveryCase → List RecoveryCase → List RecoveryCase
insert_case_by_time rank c [] = c ∷ []
insert_case_by_time rank c (r ∷ rs) =
    let rest = insert_case_by_time rank c rs in
    if comes_first rank c r then c ∷ r ∷ rs else r ∷ rest

unfoldable pub newest_first : (RecoveryCase → ℕ) → List RecoveryCase → List RecoveryCase
newest_first rank [] = []
newest_first rank (c ∷ cs) = insert_case_by_time rank c (newest_first rank cs)

-- The two optional filters of the query
abbrev pub fits {ℓ} : {A : Type ℓ} ⦃e : Eq A⦄ → Option A → A → Bool
fits none a = true
fits (some b) a = a == b

unfoldable pub selected : Option RecoveryCaseState → Option ℕ → Store → List RecoveryCase
selected state customer_id s =
    filter (λ c. fits state c.state && fits customer_id c.customer_id) s.cases

-- `RecoveryCaseRepository.list_cases`
unfoldable pub list_rows :
    (RecoveryCase → ℕ) → Option RecoveryCaseState → Option ℕ → ℕ → ℕ → Store → List RecoveryCase
unfolding newest_first selected
list_rows rank state customer_id limit offset s =
    take limit (drop offset (newest_first rank (selected state customer_id s)))

-- `math.ceil(total / size) if total > 0 else 0`
unfoldable pub page_count : ℕ → ℕ → ℕ
page_count total size = if ltb 0 total then (total + (size - 1)) / size else 0

-- `list_cases`
unfoldable pub list_cases :
    (RecoveryCase → ℕ) → Option RecoveryCaseState → Option ℕ → ℕ → ℕ → Store → PaginatedResponse
unfolding list_rows page_count selected
list_cases rank state customer_id page size s =
    let total = length (selected state customer_id s) in
    record {
      items = map to_summary (list_rows rank state customer_id size ((page - 1) * size) s);
      total = total;
      page = page;
      size = size;
      pages = page_count total size;
      has_more = ltb page (page_count total size);
    }
