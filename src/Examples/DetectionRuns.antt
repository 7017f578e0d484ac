-- ===== src/Examples/DetectionRuns.antt =====
-- Runs of the risk detector.
use revenue_rescue_ai.Common.{[], false, refl, true, ◌++◌, ◌+◌, ◌∷◌, ◌≡◌}
use revenue_rescue_ai.Enums.{RecoveryCaseState}
use revenue_rescue_ai.Cases.Detection.{
  default_detector, detect, detect_and_create_case, detect_many, is_stale, risk_case_key,
  severity_priority, status_risk,
}
use revenue_rescue_ai.Cases.Detection.Opened.{detect-opens_second, detect_and_create_case_twice}
use revenue_rescue_ai.Domain.{RecoveryCase}
use revenue_rescue_ai.Examples.Rows.{case_in, failed_payment, noon, store_in}
use revenue_rescue_ai.Store.{find_by_case_key, find_by_trigger_transaction_id, find_customer}

detect_and_create_case_twice_example :
    let s = store_in RecoveryCaseState.detected in
    let first = detect_and_create_case default_detector 31 noon failed_payment s in
    let second = detect_and_create_case default_detector 32 (noon + 5) failed_payment first.3 in
    (second.1 ≡ first.1) × (second.2 ≡ false) × (second.3 ≡ first.3)
unfolding detect_and_create_case detect find_by_case_key find_customer risk_case_key detect_many
    status_risk is_stale severity_priority
detect_and_create_case_twice_example =
    detect_and_create_case_twice default_detector 31 32 noon (noon + 5) failed_payment
      (store_in RecoveryCaseState.detected) refl refl

detect-opens_second_example :
    let s = store_in RecoveryCaseState.detected in
    let r = detect_and_create_case default_detector 31 noon failed_payment s in
    (r.2 ≡ true)
    × ((second : RecoveryCase) × (r.3.cases ≡ s.cases ++ second ∷ [])
        × (second.trigger_transaction_id ≡ 20))
unfolding detect_and_create_case find_by_trigger_transaction_id detect find_by_case_key
    find_customer risk_case_key detect_many status_risk is_stale severity_priority
detect-opens_second_example =
    detect-opens_second default_detector 31 noon failed_payment
      (store_in RecoveryCaseState.detected) (case_in RecoveryCaseState.detected) refl refl refl
