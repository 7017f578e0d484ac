-- ===== src/Events/Normalizer.antt =====
-- `normalize_event_type` and `normalize_failure_code` of
-- backend/app/services/event_normalizer.py.
use revenue_rescue_ai.Common.{
  List, Option, String, Text, [], clean, codes, eqb, if◌then◌else◌, map, none, or_else, or_empty,
  some, strip, text_beq, upper, ◌∷◌,
}

-- A dictionary of literals, from a key to a value
abbrev pub lookup : List (String × String) → Text → Option Text
unfolding codes
lookup [] t = none
lookup ((k, v) ∷ rest) t = if text_beq t (codes k) then some (codes v) else lookup rest t

unfoldable pub event_type_mapping : List (String × String)
event_type_mapping =
    ("payment_intent.payment_failed", "PAYMENT_FAILED")
    ∷ ("payment.failed", "PAYMENT_FAILED")
    ∷ ("charge.failed", "PAYMENT_FAILED")
    ∷ ("payment_failed", "PAYMENT_FAILED")
    ∷ ("PAYMENT_FAILED", "PAYMENT_FAILED")
    ∷ ("payment_intent.succeeded", "PAYMENT_SUCCEEDED")
    ∷ ("payment.captured", "PAYMENT_SUCCEEDED")
    ∷ ("charge.succeeded", "PAYMENT_SUCCEEDED")
    ∷ ("payment_succeeded", "PAYMENT_SUCCEEDED")
    ∷ ("PAYMENT_SUCCEEDED", "PAYMENT_SUCCEEDED")
    ∷ ("invoice.payment_failed", "SUBSCRIPTION_PAYMENT_FAILED")
    ∷ ("subscription.payment_failed", "SUBSCRIPTION_PAYMENT_FAILED")
    ∷ ("subscription_payment_failed", "SUBSCRIPTION_PAYMENT_FAILED")
    ∷ ("SUBSCRIPTION_PAYMENT_FAILED", "SUBSCRIPTION_PAYMENT_FAILED")
    ∷ ("checkout.session.expired", "CHECKOUT_ABANDONED")
    ∷ ("checkout_abandoned", "CHECKOUT_ABANDONED")
    ∷ ("CHECKOUT_ABANDONED", "CHECKOUT_ABANDONED")
    ∷ ("invoice.marked_uncollectible", "INVOICE_OVERDUE")
    ∷ ("invoice.overdue", "INVOICE_OVERDUE")
    ∷ ("invoice_overdue", "INVOICE_OVERDUE")
    ∷ ("INVOICE_OVERDUE", "INVOICE_OVERDUE")
    ∷ []

unfoldable pub failure_code_mapping : List (String × String)
failure_code_mapping =
    ("insufficient_funds", "insufficient_funds")
    ∷ ("card_declined", "generic_decline")
    ∷ ("expired_card", "card_expired")
    ∷ ("card_expired", "card_expired")
    ∷ ("authentication_required", "authentication_required")
    ∷ ("do_not_honor", "do_not_honor")
    ∷ ("fraudulent", "fraud_suspected")
    ∷ ("fraud_suspected", "fraud_suspected")
    ∷ ("processing_error", "processing_error")
    ∷ ("abandoned", "abandoned")
    ∷ ("overdue", "overdue")
    ∷ []

-- `t.replace(".", "_")`
abbrev pub dots_to_underscores : Text → Text
dots_to_underscores = map (λ c. if eqb c b'.' then b'_' else c)

-- `normalize_event_type`
unfoldable pub normalize_event_type : Text → Text
unfolding lookup event_type_mapping strip upper codes
normalize_event_type raw =
    or_else (lookup event_type_mapping (strip raw)) (dots_to_underscores (upper raw))

abbrev pub normalize_given : Text → Text
unfolding lookup failure_code_mapping clean codes
normalize_given [] = codes "unknown"
normalize_given (c ∷ cs) =
    let cleaned = clean (some (c ∷ cs)) in or_else (lookup failure_code_mapping cleaned) cleaned

-- `normalize_failure_code`
unfoldable pub normalize_failure_code : Option Text → Text
unfolding normalize_given
normalize_failure_code raw = normalize_given (or_empty raw)
