-- ===== src/Events/Provision.antt =====
-- The customer and the transaction of an event: `_get_or_create_customer` and
-- `_get_or_create_transaction` of backend/app/services/event_to_case_engine.py.
use revenue_rescue_ai.Common.{
  Option, String, [], first_of, given, if◌then◌else◌, joined, none, or_else, some, ℕ, ◌++◌, ◌∷◌,
}
use revenue_rescue_ai.Enums.{TransactionStatus}
use revenue_rescue_ai.Domain.{Customer, Transaction}
use revenue_rescue_ai.Events.Canonical.{CanonicalEventDto}
use revenue_rescue_ai.Events.Keys.{EngineCall, is_resolution_eligible}
use revenue_rescue_ai.Store.{Store, find_customer_by_external_id, find_transaction_by_external_id}

abbrev pub new_customer : EngineCall → CanonicalEventDto → Customer
new_customer call event = record {
  id = call.customer_id;
  email = given (first_of (given event.metadata.customer_email) event.metadata.email);
  merchant_id = event.metadata.merchant_id;
  provider = event.provider;
  external_customer_id = event.customer_reference;
}

abbrev pub keep_customer :
    EngineCall → CanonicalEventDto → Option Customer → Store → Customer × Store
keep_customer call event (some customer) s = (customer, s)
keep_customer call event none s =
    let customer = new_customer call event in
    (customer, record s { customers = s.customers ++ customer ∷ [] })

-- `_get_or_create_customer`
unfoldable pub get_or_create_customer : EngineCall → CanonicalEventDto → Store → Customer × Store
unfolding find_customer_by_external_id given
get_or_create_customer call event s =
    keep_customer call event
      (find_customer_by_external_id event.provider event.customer_reference s) s

-- `tx_ref` of `_get_or_create_transaction`
unfoldable pub transaction_ref : CanonicalEventDto → String
unfolding given
transaction_ref event =
    or_else
      (first_of (given event.payment_reference)
        (first_of (given event.invoice_reference) (given event.checkout_session_id)))
      (joined ("tx_" ∷ event.external_event_id ∷ []))

abbrev pub new_transaction : EngineCall → CanonicalEventDto → ℕ → Transaction
new_transaction call event customer = record {
  id = call.transaction_id;
  customer_id = customer;
  amount_minor = event.amount_minor;
  currency = event.currency;
  status =
      if is_resolution_eligible event
      then TransactionStatus.succeeded
      else TransactionStatus.failed;
  failure_code = event.failure_code;
  occurred_at = event.occurred_at;
  provider = event.provider;
  external_transaction_id = transaction_ref event;
}

abbrev pub keep_transaction :
    EngineCall → CanonicalEventDto → ℕ → Option Transaction → Store → Transaction × Store
keep_transaction call event customer (some tx) s = (tx, s)
keep_transaction call event customer none s =
    let tx = new_transaction call event customer in
    (tx, record s { transactions = s.transactions ++ tx ∷ [] })

-- `_get_or_create_transaction`
unfoldable pub get_or_create_transaction :
    EngineCall → CanonicalEventDto → Customer → Store → Transaction × Store
unfolding find_transaction_by_external_id transaction_ref is_resolution_eligible
get_or_create_transaction call event customer s =
    keep_transaction call event customer.id
      (find_transaction_by_external_id event.provider (transaction_ref event) s) s
