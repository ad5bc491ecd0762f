-- ===== src/PositionManager/Events.antt =====
-- position_manager/manager.py: the state of the position manager that its events determine, and what each event
-- does to it (`_apply_event`).
use turtle_qts_execution.Base.{
  ℕ, Bool, ◌&&◌, Option, none, some, List, [], ◌∷◌, ◌++◌, Text, codes, text_eq, Fields, get, holds,
  Outcome, ok, ◌>>=◌, Dict, lookup, insert, dec, add_dec, Numerals, as_text, as_decimal,
  as_optional_decimal, as_decimal_or_zero, add_text, get_or,
}
use turtle_qts_execution.EventStore.Types.{Event}
use turtle_qts_execution.ExchangeAdapter.Models.{make_symbol, parse_side}
use turtle_qts_execution.PositionManager.States.{PositionLifecycleState}
use turtle_qts_execution.PositionManager.Snapshot.{PositionSnapshot, ClosedLeg}
use turtle_qts_execution.PositionManager.Pnl.{weighted_average_price}

abbrev pub event_source_tag : Text
event_source_tag = codes "position_manager"

-- `_is_own_event`
unfoldable pub is_own_event : Text → Event → Bool
is_own_event pm_id e =
    holds (get (codes "source") e.payload) event_source_tag
    && holds (get (codes "pm_id") e.payload) pm_id

-- The `namespaced_key` of `_persist`.
unfoldable pub namespaced_key : Text → Text → Text
namespaced_key pm_id key = event_source_tag ++ (codes ":" ++ (pm_id ++ (codes ":" ++ key)))

-- The fields that events determine, but for `_applied_event_ids`.
pub record Book : Type 0 where
  pub snapshots : Dict Text PositionSnapshot
  pub closed_legs : Dict Text (List ClosedLeg)
  pub processed_fill_ids : Dict Text (List Text)
  pub next_seq : ℕ

abbrev pub empty_book : Book
empty_book = record { snapshots = []; closed_legs = []; processed_fill_ids = []; next_seq = 1 }

-- `_snapshots.get(position_id)`
abbrev pub find : Text → Book → Option PositionSnapshot
find position_id b = lookup text_eq position_id b.snapshots

-- `_processed_fill_ids.setdefault(position_id, set()).add(fill_id)`
unfoldable pub fill_processed : Text → Text → Book → Book
fill_processed position_id fill_id b = record b {
  processed_fill_ids =
      insert text_eq position_id (add_text fill_id (get_or position_id [] b.processed_fill_ids))
        b.processed_fill_ids;
}

unfoldable pub snapshot_stored : Text → PositionSnapshot → Book → Book
snapshot_stored position_id p b = record b { snapshots = insert text_eq position_id p b.snapshots }

-- `_closed_legs.setdefault(position_id, []).append(leg)`
unfoldable pub leg_closed : Text → ClosedLeg → Book → Book
leg_closed position_id leg b = record b {
  closed_legs =
      insert text_eq position_id (get_or position_id [] b.closed_legs ++ leg ∷ []) b.closed_legs;
}

-- The three dictionaries after a CREATE event.
unfoldable pub position_created : Text → PositionSnapshot → Book → Book
position_created position_id p b = record b {
  snapshots = insert text_eq position_id p b.snapshots;
  closed_legs = insert text_eq position_id (get_or position_id [] b.closed_legs) b.closed_legs;
  processed_fill_ids =
      insert text_eq position_id (get_or position_id [] b.processed_fill_ids) b.processed_fill_ids;
}

module _ (n : Numerals) where
  -- The snapshot of the CREATE branch.
  unfoldable pub new_snapshot : Text → Event → Fields → Outcome PositionSnapshot
  new_snapshot position_id e details = as_text (get (codes "symbol") details) >>= (λ symbol_text.
      make_symbol symbol_text >>= (λ symbol. as_text (get (codes "side") details) >>= (λ side_text.
        parse_side side_text >>= (λ side.
          as_decimal n (get (codes "intended_quantity") details) >>= (λ intended_quantity.
            as_decimal n (get (codes "stop_price") details) >>= (λ stop_price.
              as_decimal n (get (codes "stop_d") details) >>= (λ stop_d.
                as_decimal n (get (codes "t1_price") details) >>= (λ t1_price.
                  as_decimal n (get (codes "t2_price") details) >>= (λ t2_price.
                    as_optional_decimal n (get (codes "conviction") details) >>= (λ conviction.
                      ok (record {
                        position_id = position_id;
                        lifecycle_state = PositionLifecycleState.new;
                        symbol = symbol;
                        side = side;
                        intended_quantity = intended_quantity;
                        filled_quantity = dec 0;
                        remaining_quantity = dec 0;
                        avg_entry_price = none;
                        stop_price = stop_price;
                        stop_d = stop_d;
                        t1_price = t1_price;
                        t2_price = t2_price;
                        conviction = conviction;
                        realized_pnl = dec 0;
                        realized_r = dec 0;
                        fees_paid = dec 0;
                        funding_paid = dec 0;
                        created_at_utc = e.timestamp_utc;
                        updated_at_utc = e.timestamp_utc;
                      })))))))))))

  -- `updated` of the ENTRY_FILL branch.
  unfoldable pub entered :
      Event → Fields → PositionLifecycleState → PositionSnapshot → Outcome PositionSnapshot
  entered e details to_state existing =
      as_decimal n (get (codes "fill_price") details) >>= (λ price.
        as_decimal n (get (codes "fill_quantity") details) >>= (λ quantity.
          weighted_average_price existing.avg_entry_price existing.filled_quantity price quantity
          >>= (λ new_avg. as_decimal_or_zero n (get (codes "fee") details) >>= (λ fee.
              ok (record existing {
                lifecycle_state = to_state;
                avg_entry_price = some new_avg;
                filled_quantity = add_dec existing.filled_quantity quantity;
                remaining_quantity = add_dec existing.filled_quantity quantity;
                fees_paid = add_dec existing.fees_paid fee;
                updated_at_utc = e.timestamp_utc;
              })))))

  -- `leg` of the EXIT branch.
  unfoldable pub closing_leg : Text → Event → Fields → PositionSnapshot → Outcome ClosedLeg
  closing_leg position_id e details existing =
      as_decimal n (get (codes "fill_quantity") details) >>= (λ qty_closed.
        as_decimal n (get (codes "r") details) >>= (λ r.
          as_decimal n (get (codes "pct") details) >>= (λ pct.
            as_text (get (codes "reason") details) >>= (λ reason.
              as_decimal n (get (codes "fill_price") details) >>= (λ exit_px.
                as_decimal_or_zero n (get (codes "fee") details) >>= (λ fee.
                  as_decimal n (get (codes "realized_pnl") details) >>= (λ realized_pnl.
                    ok (record {
                      position_id = position_id;
                      symbol = existing.symbol.value;
                      r = r;
                      pct = pct;
                      reason = reason;
                      conv = existing.conviction;
                      entry_at_utc = existing.created_at_utc;
                      exit_at_utc = e.timestamp_utc;
                      entry_px = existing.avg_entry_price;
                      exit_px = exit_px;
                      stop_d = existing.stop_d;
                      quantity = qty_closed;
                      fee = fee;
                      realized_pnl = realized_pnl;
                    }))))))))
