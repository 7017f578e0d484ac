-- ===== src/Enums/Risks.antt =====
-- The reasons and severities of backend/app/services/risk_detection.py.

pub data RiskReason : Type 0 where
  payment_failed payment_pending_too_long payment_status_unknown : RiskReason
  transaction_already_succeeded transaction_not_at_risk missing_customer_context : RiskReason

pub data RiskSeverity : Type 0 where
  high medium low none : RiskSeverity
