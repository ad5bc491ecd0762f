-- ===== src/OrderManager/Events.antt =====
-- order_manager/manager.py: the state of the order manager that its events determine, and what each event does to
-- it (`_apply_event`).
use turtle_qts_execution.Base.{
  ℕ, Bool, ◌&&◌, Option, none, some, List, [], ◌∷◌, ◌++◌, Text, codes, text_eq, Json, null, bool,
  str, Fields, get, holds, Outcome, ok, err, ◌>>=◌, if◌then◌else◌, Dict, lookup, insert, Decimal,
  dec, add_dec, eq_dec, Numerals, as_text, as_decimal, as_optional_decimal, add_text, get_or,
  key_error, type_error,
}
use turtle_qts_execution.EventStore.Types.{Event}
use turtle_qts_execution.ExchangeAdapter.Models.{
  make_symbol, parse_side, parse_order_type, parse_time_in_force,
}
use turtle_qts_execution.OrderManager.States.{OrderLifecycleState}
use turtle_qts_execution.OrderManager.Snapshot.{OrderSnapshot}

abbrev pub event_source_tag : Text
event_source_tag = codes "order_manager"

-- `_is_own_event`
unfoldable pub is_own_event : Text → Event → Bool
is_own_event om_id e =
    holds (get (codes "source") e.payload) event_source_tag
    && holds (get (codes "om_id") e.payload) om_id

-- The `namespaced_key` of `_persist`.
unfoldable pub namespaced_key : Text → Text → Text
namespaced_key om_id key = event_source_tag ++ (codes ":" ++ (om_id ++ (codes ":" ++ key)))

-- The fields that events determine, but for `_applied_event_ids`.
pub record Orders : Type 0 where
  pub snapshots : Dict Text OrderSnapshot
  pub processed_fill_ids : Dict Text (List Text)
  pub next_seq : ℕ

abbrev pub no_orders : Orders
no_orders = record { snapshots = []; processed_fill_ids = []; next_seq = 1 }

-- `_snapshots.get(client_order_id)`
abbrev pub find : Text → Orders → Option OrderSnapshot
find client_order_id b = lookup text_eq client_order_id b.snapshots

unfoldable pub as_bool : Option Json → Outcome Bool
as_bool none = err key_error
as_bool (some (bool b)) = ok b
as_bool (some _) = err type_error

-- `details.get(key) or before`
unfoldable pub text_or : Option Json → Option Text → Outcome (Option Text)
text_or none before = ok before
text_or (some null) before = ok before
text_or (some (str [])) before = ok before
text_or (some (str (c ∷ cs))) before = ok (some (c ∷ cs))
text_or (some _) before = err type_error

-- `_dec(...) or before`: zero is no quantity.
unfoldable pub quantity_or : Option Decimal → Decimal → Decimal
quantity_or none before = before
quantity_or (some d) before = if eq_dec d (dec 0) then before else d

unfoldable pub fill_processed : Text → Text → Orders → Orders
fill_processed client_order_id fill_id b = record b {
  processed_fill_ids =
      insert text_eq client_order_id
        (add_text fill_id (get_or client_order_id [] b.processed_fill_ids)) b.processed_fill_ids;
}

unfoldable pub snapshot_stored : Text → OrderSnapshot → Orders → Orders
snapshot_stored client_order_id p b = record b {
  snapshots = insert text_eq client_order_id p b.snapshots;
}

unfoldable pub order_created : Text → OrderSnapshot → Orders → Orders
order_created client_order_id p b = record b {
  snapshots = insert text_eq client_order_id p b.snapshots;
  processed_fill_ids =
      insert text_eq client_order_id (get_or client_order_id [] b.processed_fill_ids)
        b.processed_fill_ids;
}

-- `updated` of the status branch.
unfoldable pub status_updated :
    Event → Fields → OrderLifecycleState → OrderSnapshot → Outcome OrderSnapshot
status_updated e details to_state existing =
    text_or (get (codes "exchange_order_id") details) existing.exchange_order_id
    >>= (λ exchange_order_id.
        text_or (get (codes "reject_reason") details) existing.reject_reason >>= (λ reject_reason.
          ok (record existing {
            lifecycle_state = to_state;
            exchange_order_id = exchange_order_id;
            reject_reason = reject_reason;
            updated_at_utc = e.timestamp_utc;
          })))

module _ (n : Numerals) where
  -- The snapshot of the SUBMIT branch.
  unfoldable pub new_snapshot : Text → Event → Fields → Outcome OrderSnapshot
  new_snapshot client_order_id e details =
      as_text (get (codes "symbol") details) >>= (λ symbol_text.
        make_symbol symbol_text >>= (λ symbol.
          as_text (get (codes "side") details) >>= (λ side_text. parse_side side_text >>= (λ side.
            as_text (get (codes "order_type") details) >>= (λ type_text.
              parse_order_type type_text >>= (λ order_type.
                as_decimal n (get (codes "quantity") details) >>= (λ quantity.
                  as_optional_decimal n (get (codes "limit_price") details) >>= (λ limit_price.
                    as_text (get (codes "time_in_force") details) >>= (λ tif_text.
                      parse_time_in_force tif_text >>= (λ time_in_force.
                        as_bool (get (codes "reduce_only") details) >>= (λ reduce_only. ok (record {
                          client_order_id = client_order_id;
                          lifecycle_state = OrderLifecycleState.submitted;
                          exchange_order_id = none;
                          symbol = symbol;
                          side = side;
                          order_type = order_type;
                          quantity = quantity;
                          filled_quantity = dec 0;
                          limit_price = limit_price;
                          time_in_force = time_in_force;
                          reduce_only = reduce_only;
                          created_at_utc = e.timestamp_utc;
                          updated_at_utc = e.timestamp_utc;
                          reject_reason = none;
                        }))))))))))))

  -- `updated` of the FILL branch.
  unfoldable pub filled :
      Event → Fields → OrderLifecycleState → OrderSnapshot → Outcome OrderSnapshot
  filled e details to_state existing =
      as_decimal n (get (codes "fill_quantity") details) >>= (λ quantity. ok (record existing {
        lifecycle_state = to_state;
        filled_quantity = add_dec existing.filled_quantity quantity;
        updated_at_utc = e.timestamp_utc;
      }))

  -- `_dec(details.get("new_limit_price")) if "new_limit_price" in details else existing.limit_price`
  unfoldable pub limit_price_or : Option Json → Option Decimal → Outcome (Option Decimal)
  limit_price_or none before = ok before
  limit_price_or (some j) before = as_optional_decimal n (some j)

  -- `updated` of the AMEND branch.
  unfoldable pub amended : Event → Fields → OrderSnapshot → Outcome OrderSnapshot
  amended e details existing =
      as_optional_decimal n (get (codes "new_quantity") details) >>= (λ new_quantity.
        limit_price_or (get (codes "new_limit_price") details) existing.limit_price
        >>= (λ limit_price. ok (record existing {
          quantity = quantity_or new_quantity existing.quantity;
          limit_price = limit_price;
          updated_at_utc = e.timestamp_utc;
        })))
