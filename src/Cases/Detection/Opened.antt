-- ===== src/Cases/Detection/Opened.antt =====
-- Which transactions are at risk, and the cases that the detector opens for them.
use revenue_rescue_ai.Common.{
  ==_self, Option, Option-cases, [], arith, eqb_iff, false, find?-append_none, find?-sound, inl,
  inr, nat_eq, none, refl, some, string_eq, sym, true, ℕ, ◌++◌, ◌+◌, ◌==◌, ◌↔◌, ◌∙◌, ◌∷◌, ◌≡◌, ◌≤◌,
  ◌⊎◌,
}
use revenue_rescue_ai.Enums.{TransactionStatus}
use revenue_rescue_ai.Cases.Detection.{
  DetectorConfig, detect, detect_and_create_case, is_stale, open_risk_case, risk_case,
  risk_case_key, status_risk,
}
use revenue_rescue_ai.Domain.{Customer, RecoveryCase, Transaction}
use revenue_rescue_ai.Store.{Store, find_by_case_key, find_by_trigger_transaction_id, find_customer}

-- A transaction is at risk exactly if it has failed, if its status is unknown (however young it is),
-- or if it has been pending for the threshold; the customer makes no difference.
pub detect-is_at_risk_iff :
    (config : DetectorConfig) (t : Transaction) (customer : Option Customer) (as_of : ℕ)
    → ((detect config t customer as_of).is_at_risk ≡ true) ↔ (
        (t.status ≡ TransactionStatus.failed)
        ⊎ ((t.status ≡ TransactionStatus.unknown)
            ⊎ ((t.status ≡ TransactionStatus.pending)
                × (t.occurred_at + config.pending_stale_after ≤ as_of))))
unfolding detect status_risk is_stale
detect-is_at_risk_iff config t customer as_of = ground arith

find_by_case_key-opened :
    (config : DetectorConfig) (id as_of : ℕ) (t : Transaction) (s : Store)
    → find_by_case_key (risk_case_key t) s ≡ none
    → find_by_case_key
        (risk_case_key t)
        (open_risk_case id t (detect config t (find_customer t.customer_id s) as_of) none s).3
      ≡ some (risk_case id t (detect config t (find_customer t.customer_id s) as_of))
unfolding find_by_case_key risk_case open_risk_case
find_by_case_key-opened config id as_of t s e =
    let result = detect config t (find_customer t.customer_id s) as_of in
    find?-append_none (λ r. r.case_key == risk_case_key t) s.cases (risk_case id t result ∷ []) e
    ∙ rw (==_self (risk_case_key t)) refl

-- A second detection of a transaction opens nothing and gives the case of the first, whenever it
-- comes, as long as the transaction is still at risk then.
pub detect_and_create_case_twice :
    (config : DetectorConfig) (id again as_of later : ℕ) (t : Transaction) (s : Store)
    → (detect config t (find_customer t.customer_id s) as_of).is_at_risk ≡ true
    → (detect config t (find_customer t.customer_id s) later).is_at_risk ≡ true
    → let first = detect_and_create_case config id as_of t s in
      let second = detect_and_create_case config again later t first.3 in
      (second.1 ≡ first.1) × (second.2 ≡ false) × (second.3 ≡ first.3)
unfolding detect_and_create_case
detect_and_create_case_twice config id again as_of later t s h h' =
    elim (Option-cases (find_by_case_key (risk_case_key t) s)) [
      | inl e ↦ rw (h, e, h', find_by_case_key-opened config id as_of t s e) (refl, refl, refl)
      | inr e ↦ rw (h, e.1, h', e.1) (refl, refl, refl)
    ]

-- The detector asks only for its own key, so it opens a second case for a failed transaction that has
-- one under another key, as those of the event engine are.
pub detect-opens_second :
    (config : DetectorConfig) (id as_of : ℕ) (t : Transaction) (s : Store) (case : RecoveryCase)
    → find_by_trigger_transaction_id t.id s ≡ some case
    → find_by_case_key (risk_case_key t) s ≡ none
    → t.status ≡ TransactionStatus.failed
    → let r = detect_and_create_case config id as_of t s in
      (r.2 ≡ true)
      × ((second : RecoveryCase) × (r.3.cases ≡ s.cases ++ second ∷ [])
          × (second.trigger_transaction_id ≡ case.trigger_transaction_id))
unfolding detect_and_create_case find_by_trigger_transaction_id open_risk_case risk_case
detect-opens_second config id as_of t s case f k h =
    let customer = find_customer t.customer_id s in
    let at_risk = (detect-is_at_risk_iff config t customer as_of).1 (inl h) in
    let same =
      (eqb_iff case.trigger_transaction_id t.id).0
        (find?-sound (λ r. r.trigger_transaction_id == t.id) s.cases case f) in
    rw (at_risk, k) (refl, (risk_case id t (detect config t customer as_of), refl, sym same))
