-- ===== src/Cases/Detection.antt =====
-- `RevenueRiskDetector` and `RiskCaseService` of backend/app/services/risk_detection.py.
pub mod Opened
use revenue_rescue_ai.Common.{
  Bool, List, Option, String, [], any, false, if◌then◌else◌, joined, leb, map, none, some, true, ℕ,
  ◌*◌, ◌++◌, ◌+◌, ◌∷◌,
}
use revenue_rescue_ai.Enums.{RecoveryCaseState, RiskReason, RiskSeverity, TransactionStatus}
use revenue_rescue_ai.Domain.{Customer, RecoveryCase, Transaction}
use revenue_rescue_ai.Policy.Config.{hour}
use revenue_rescue_ai.Policy.Models.{result}
use revenue_rescue_ai.Store.{Store, find_by_case_key, find_customer}

pub record RiskDetectionResult : Type 0 where
  pub transaction_id : ℕ
  pub is_at_risk : Bool
  pub severity : RiskSeverity
  pub reason_codes : List RiskReason
  pub detected_at : ℕ
  pub rule_version : String
  pub recommended_case_state : Option RecoveryCaseState

pub record DetectorConfig : Type 0 where
  pub pending_stale_after : ℕ
  pub rule_version : String

abbrev pub default_detector : DetectorConfig
default_detector = record { pending_stale_after = 24 * hour; rule_version = "phase3.v1" }

-- `_is_stale`
unfoldable pub is_stale : DetectorConfig → ℕ → ℕ → Bool
is_stale config occurred_at as_of = leb (occurred_at + config.pending_stale_after) as_of

-- The reasons and the severity that the status gives; a fresh pending payment gives no reason.
unfoldable pub status_risk :
    DetectorConfig → TransactionStatus → ℕ → ℕ → List RiskReason × RiskSeverity
unfolding is_stale
status_risk config TransactionStatus.failed occurred_at as_of =
    (RiskReason.payment_failed ∷ [], RiskSeverity.high)
status_risk config TransactionStatus.pending occurred_at as_of =
    if is_stale config occurred_at as_of
    then (RiskReason.payment_pending_too_long ∷ [], RiskSeverity.medium)
    else ([], RiskSeverity.none)
status_risk config TransactionStatus.unknown occurred_at as_of =
    (RiskReason.payment_status_unknown ∷ [], RiskSeverity.medium)
status_risk config TransactionStatus.succeeded occurred_at as_of =
    (RiskReason.transaction_already_succeeded ∷ [], RiskSeverity.none)
status_risk config _ occurred_at as_of =
    (RiskReason.transaction_not_at_risk ∷ [], RiskSeverity.none)

abbrev pub is_risk : RiskReason → Bool
is_risk RiskReason.payment_failed = true
is_risk RiskReason.payment_pending_too_long = true
is_risk RiskReason.payment_status_unknown = true
is_risk _ = false

-- The reasons, with that of a missing customer
abbrev pub with_context : List RiskReason → Option Customer → List RiskReason
with_context [] customer = []
with_context (r ∷ rs) none =
    if is_risk r then (r ∷ rs) ++ RiskReason.missing_customer_context ∷ [] else r ∷ rs
with_context (r ∷ rs) (some customer) = r ∷ rs

-- `detect`
unfoldable pub detect : DetectorConfig → Transaction → Option Customer → ℕ → RiskDetectionResult
unfolding status_risk
detect config transaction customer as_of =
    let risk = status_risk config transaction.status transaction.occurred_at as_of in
    let reasons = with_context risk.0 customer in
    record {
      transaction_id = transaction.id;
      is_at_risk = any is_risk reasons;
      severity = risk.1;
      reason_codes = reasons;
      detected_at = as_of;
      rule_version = config.rule_version;
      recommended_case_state =
          if any is_risk reasons then some RecoveryCaseState.detected else none;
    }

-- `detect_many`, for a dictionary of customers
unfoldable pub detect_many :
    DetectorConfig → List Transaction → (ℕ → Option Customer) → ℕ → List RiskDetectionResult
unfolding detect
detect_many config transactions customers_by_id as_of =
    map (λ t. detect config t (customers_by_id t.customer_id) as_of) transactions

-- `case_key`
unfoldable pub risk_case_key : Transaction → String
risk_case_key transaction = joined (
    transaction.provider ∷ ":transaction:" ∷ transaction.external_transaction_id ∷ ":revenue-risk"
    ∷ [])

-- `_priority`
unfoldable pub severity_priority : RiskSeverity → ℕ
severity_priority RiskSeverity.high = 100
severity_priority RiskSeverity.medium = 70
severity_priority RiskSeverity.low = 40
severity_priority RiskSeverity.none = 0

abbrev pub risk_case : ℕ → Transaction → RiskDetectionResult → RecoveryCase
unfolding severity_priority risk_case_key
risk_case id transaction result = record {
  id = id;
  customer_id = transaction.customer_id;
  trigger_transaction_id = transaction.id;
  case_key = risk_case_key transaction;
  state = RecoveryCaseState.detected;
  priority = severity_priority result.severity;
  opened_at = result.detected_at;
  last_state_changed_at = result.detected_at;
  closed_at = none;
  version = 1;
  failure_count = none;
}

-- The case of the key, or the new one
abbrev pub open_risk_case :
    ℕ
    → Transaction
    → RiskDetectionResult
    → Option RecoveryCase
    → Store
    → RiskDetectionResult × Option RecoveryCase × Bool × Store
unfolding risk_case
open_risk_case id transaction result (some existing) s = (result, some existing, false, s)
open_risk_case id transaction result none s =
    let case = risk_case id transaction result in
    (result, some case, true, record s { cases = s.cases ++ case ∷ [] })

-- `detect_and_create_case`, with the id that the new row gets
unfoldable pub detect_and_create_case :
    DetectorConfig
    → ℕ
    → ℕ
    → Transaction
    → Store
    → RiskDetectionResult × Option RecoveryCase × Bool × Store
unfolding detect find_customer find_by_case_key risk_case_key open_risk_case
detect_and_create_case config id as_of transaction s =
    let result = detect config transaction (find_customer transaction.customer_id s) as_of in
    if result.is_at_risk
    then open_risk_case id transaction result (find_by_case_key (risk_case_key transaction) s) s
    else (result, none, false, s)
