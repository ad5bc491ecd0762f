-- ===== src/ExchangeAdapter/Adapter.antt =====
-- exchange_adapter/adapter.py, idempotency.py and audit.py: the mutating methods of an adapter, with the cache of
-- their results and the audit log.
pub mod Once
use turtle_qts_execution.Base.{
  Option, none, some, List, [], ◌∷◌, ◌++◌, Text, text_eq, codes, Json, null, bool, str, Fields, end,
  field, Outcome, ok, err, Error, Dict, lookup, insert, Numerals, numeral, optional_numeral,
}
use turtle_qts_execution.ExchangeAdapter.Models.{
  Order, OrderRequest, AmendRequest, CancelRequest, CancelAllRequest, Symbol, side_value,
  order_type_value, time_in_force_value,
}

-- What a mutation returns: an order, or the orders of `cancel_all`.
pub data Stored : Type 0 where
  order : Order → Stored
  listing : List Order → Stored

pub record AuditRecord : Type 0 where
  pub request_id : Text
  pub logical_action : Text
  pub exchange_name : Text
  pub adapter_version : Text
  pub timestamp_utc : Text
  pub payload_hash : Text
  pub idempotency_key : Text

pub record ExchangeAdapter : Type 0 where
  pub exchange_name : Text
  pub adapter_version : Text
  -- `_idempotency`: the results by request id
  pub results : Dict Text Stored
  pub audit_log : List AuditRecord

-- `IdempotencyCache.store`: the first writer wins.
unfoldable pub store : Text → Stored → Dict Text Stored → Stored × Dict Text Stored
store key value results = elim (lookup text_eq key results) [
  | some first ↦ (first, results)
  | none ↦ (value, insert text_eq key value results)
]

-- `hash_of` gives the SHA-256 of a payload's canonical JSON, `now` the clock's text.
unfoldable pub compute_audit_record :
    (Fields → Text) → Text → Text → Text → Text → Text → Text → Fields → AuditRecord
compute_audit_record hash_of now request_id logical_action exchange_name adapter_version
      idempotency_key payload =
    record {
      request_id = request_id;
      logical_action = logical_action;
      exchange_name = exchange_name;
      adapter_version = adapter_version;
      timestamp_utc = now;
      payload_hash = hash_of payload;
      idempotency_key = idempotency_key;
    }

module _ (n : Numerals) where
  unfoldable pub order_request_audit_payload : OrderRequest → Fields
  order_request_audit_payload r = field (codes "client_order_id") (str r.client_order_id) (
      field (codes "symbol") (str r.symbol.value) (
        field (codes "side") (str (side_value r.side)) (
          field (codes "order_type") (str (order_type_value r.order_type)) (
            field (codes "quantity") (numeral n r.quantity) (
              field (codes "limit_price") (optional_numeral n r.limit_price) (
                field (codes "time_in_force") (str (time_in_force_value r.time_in_force))
                  (field (codes "reduce_only") (bool r.reduce_only) end)))))))

  unfoldable pub amend_request_audit_payload : AmendRequest → Fields
  amend_request_audit_payload r = field (codes "request_id") (str r.request_id) (
      field (codes "exchange_order_id") (str r.exchange_order_id) (
        field (codes "new_quantity") (optional_numeral n r.new_quantity)
          (field (codes "new_limit_price") (optional_numeral n r.new_limit_price) end)))

unfoldable pub cancel_request_audit_payload : CancelRequest → Fields
cancel_request_audit_payload r =
    field (codes "request_id") (str r.request_id)
      (field (codes "exchange_order_id") (str r.exchange_order_id) end)

unfoldable pub cancel_all_request_audit_payload : CancelAllRequest → Fields
cancel_all_request_audit_payload r =
    field (codes "request_id") (str r.request_id)
      (field (codes "symbol") (elim r.symbol [ none ↦ null | some s ↦ str s.value ]) end)

-- The mutations, and the venue on which the `_transmit_...` hook of each acts.
pub data Mutation : Type 0 where
  placing : OrderRequest → Mutation
  amending : AmendRequest → Mutation
  cancelling : CancelRequest → Mutation
  cancelling_all : CancelAllRequest → Mutation

module _ {V : Type 0} (n : Numerals) (hash_of : Fields → Text) (now : V → Text)
    (transmit : Mutation → V → Outcome Stored × V) where
  -- The end of a mutation, on the result of the transmission.
  unfoldable pub keep_result :
      Text → ExchangeAdapter → Outcome Stored × V → Outcome Stored × (ExchangeAdapter × V)
  keep_result key a (err x, v) = (err x, (a, v))
  keep_result key a (ok result, v) =
      let (kept, results) = store key result a.results in
      (ok kept, (record a { results = results }, v))

  -- The body that the four methods share.
  unfoldable pub mutate :
      Text → Text → Fields → Mutation → ExchangeAdapter × V → Outcome Stored × (ExchangeAdapter × V)
  mutate key logical_action payload request (a, v) = elim (lookup text_eq key a.results) [
    | some cached ↦ (ok cached, (a, v))
    | none ↦
        keep_result key
          (record a {
            audit_log =
                a.audit_log
                ++ compute_audit_record hash_of (now v) key logical_action a.exchange_name
                    a.adapter_version key payload
                  ∷ [];
          })
          (transmit request v)
  ]

  -- `place_order`, `amend_order`, `cancel_order` and `cancel_all`
  unfoldable pub call : Mutation → ExchangeAdapter × V → Outcome Stored × (ExchangeAdapter × V)
  call (placing r) =
      mutate r.client_order_id (codes "PLACE_ORDER") (order_request_audit_payload n r) (placing r)
  call (amending r) =
      mutate r.request_id (codes "AMEND_ORDER") (amend_request_audit_payload n r) (amending r)
  call (cancelling r) =
      mutate r.request_id (codes "CANCEL_ORDER") (cancel_request_audit_payload r) (cancelling r)
  call (cancelling_all r) =
      mutate r.request_id (codes "CANCEL_ALL") (cancel_all_request_audit_payload r)
        (cancelling_all r)

  -- Calls one after the other; what they return is forgotten.
  unfoldable pub calls : List Mutation → ExchangeAdapter × V → ExchangeAdapter × V
  calls [] w = w
  calls (r ∷ rs) w = calls rs (call r w).1

-- The id of a request.
unfoldable pub request_key : Mutation → Text
request_key (placing r) = r.client_order_id
request_key (amending r) = r.request_id
request_key (cancelling r) = r.request_id
request_key (cancelling_all r) = r.request_id
