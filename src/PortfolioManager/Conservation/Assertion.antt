-- ===== src/PortfolioManager/Conservation/Assertion.antt =====
-- `_assert_invariant` after an event, in the range where the sums are exact.
use turtle_qts_execution.Base.{
  ℕ, ◌+◌, ◌^◌, ◌≤◌, ◌≡◌, refl, arith, inl, inr, Text, List, ◌∷◌, Error, codes, Fields, get, get_or,
  Outcome, ok, err, Decimal, dec, Numerals, as_text, as_decimal, as_fields_or_empty, if_branches,
  text_eq, Bool-cases,
}
use turtle_qts_execution.Base.Exact.{Fits}
use turtle_qts_execution.EventStore.Types.{Event}
use turtle_qts_execution.EventSourcing.{has_id}
use turtle_qts_execution.PortfolioManager.Snapshot.{PortfolioSnapshot}
use turtle_qts_execution.PortfolioManager.Ledger.{
  PortfolioManager, snapshot, deposited, withdrawn, margin_reserved, margin_allocated,
  margin_released, pnl_realized, funding_applied, fee_applied,
}
use turtle_qts_execution.PortfolioManager.Events.{
  with_amount, with_position, marks_updated, effect, event_effect, conclude, apply_event,
}
use turtle_qts_execution.PortfolioManager.Conservation.{
  Books, Books-wider, Books-is_balanced, deposited-Books, withdrawn-Books, margin_reserved-Books,
  margin_allocated-Books, margin_released-Books, pnl_realized-Books, funding_applied-Books,
  fee_applied-Books, marked-Books,
}

-- What holds of each branch of an outcome, the branch's equation being known.
read_branches :
    {A B : Type 0} (P : B → Type 0) (o : Outcome A) {f : A → B} {g : Error → B}
    → ((x : Error) → P (g x))
    → ((a : A) → o ≡ ok a → P (f a))
    → P (elim o [ err x ↦ g x | ok a ↦ f a ])
read_branches P (err x) hx hf = hx x
read_branches P (ok a) hx hf = hf a refl

module _ (n : Numerals) (scale m : ℕ) (details : Fields) (s : PortfolioManager) where
  -- The amounts that an event brings, and the margins of the position that it releases.
  pub record AmountsFit : Type 0 where
    pub amount :
        (amt : Decimal) → as_decimal n (get (codes "amount") details) ≡ ok amt → Fits scale m amt
    pub unrealized :
        (amt : Decimal)
        → as_decimal n (get (codes "unrealized_pnl") details) ≡ ok amt
        → Fits scale m amt
    pub held :
        (pid : Text)
        → as_text (get (codes "position_id") details) ≡ ok pid
        → Fits scale m (get_or pid (dec 0) s.reserved_by_position)
          × Fits scale m (get_or pid (dec 0) s.used_by_position)

  module _ (small : m ≤ 10 ^ 26) (b : Books scale m s) (fit : AmountsFit) where
    -- The books balance, and the sizes have grown by a factor of three at most.
    record Balances (r : Outcome (Unit {0}) × PortfolioManager) : Type 0 where
      books : Books scale (m + m + m) r.1

    unchanged : (o : Outcome (Unit {0})) → Balances (o, s)
    unchanged o = record { books = Books-wider b (omega arith) }

    with_amount-Balances :
        (f : Decimal → PortfolioManager → PortfolioManager)
        → ((amt : Decimal) → Fits scale m amt → Books scale (m + m + m) (f amt s))
        → Balances (with_amount n details f s)
    with_amount-Balances f h =
        read_branches Balances (as_decimal n (get (codes "amount") details))
          (λ x. unchanged (err x)) (λ amt e. record { books = h amt (fit.amount amt e) })

    with_position-Balances :
        (f : Text → PortfolioManager → Outcome (Unit {0}) × PortfolioManager)
        → ((pid : Text) → as_text (get (codes "position_id") details) ≡ ok pid → Balances (f pid s))
        → Balances (with_position n details f s)
    with_position-Balances f h =
        read_branches Balances (as_text (get (codes "position_id") details))
          (λ x. unchanged (err x)) h

    marked :
        (o : Outcome (Unit {0})) (s' : PortfolioManager)
        → Fits scale m s'.unrealized_pnl
        → s'
          ≡ record s { unrealized_pnl = s'.unrealized_pnl; exposure = s'.exposure; heat = s'.heat }
        → Balances (o, s')
    marked o s' f h = record { books = marked-Books scale m small s b s' f h }

    marks_updated-Balances : Balances (marks_updated n details s)
    unfolding marks_updated
    marks_updated-Balances =
        read_branches Balances (as_decimal n (get (codes "unrealized_pnl") details))
          (λ x. unchanged (err x))
          (λ amt e.
            read_branches Balances (as_decimal n (get (codes "exposure") details))
              (λ x. marked (err x) (record s { unrealized_pnl = amt }) (fit.unrealized amt e) refl)
              (λ exposure _.
                read_branches Balances (as_decimal n (get (codes "heat") details))
                  (λ x.
                    marked (err x) (record s { unrealized_pnl = amt; exposure = exposure })
                      (fit.unrealized amt e) refl)
                  (λ heat _.
                    marked (ok tt)
                      (record s { unrealized_pnl = amt; exposure = exposure; heat = heat })
                      (fit.unrealized amt e) refl)))

    effect-Balances : (action : Text) → Balances (effect n action details s)
    unfolding effect
    effect-Balances action =
        if_branches Balances (text_eq action (codes "DEPOSIT"))
          (with_amount-Balances deposited (deposited-Books scale m small s b))
          (if_branches Balances (text_eq action (codes "WITHDRAW"))
            (with_amount-Balances withdrawn (withdrawn-Books scale m small s b))
            (if_branches Balances (text_eq action (codes "RESERVE_MARGIN"))
              (with_position-Balances (λ pid. with_amount n details (margin_reserved pid))
                (λ pid _.
                  with_amount-Balances (margin_reserved pid)
                    (margin_reserved-Books scale m small s b pid)))
              (if_branches Balances (text_eq action (codes "ALLOCATE_MARGIN"))
                (with_position-Balances (λ pid. with_amount n details (margin_allocated pid))
                  (λ pid _.
                    with_amount-Balances (margin_allocated pid)
                      (margin_allocated-Books scale m small s b pid)))
                (if_branches Balances (text_eq action (codes "RELEASE_MARGIN"))
                  (with_position-Balances (λ pid s. (ok tt, margin_released pid s))
                    (λ pid e. record {
                      books =
                          margin_released-Books scale m small s b pid (fit.held pid e).0
                            (fit.held pid e).1;
                    }))
                  (if_branches Balances (text_eq action (codes "REALIZED_PNL"))
                    (with_amount-Balances pnl_realized (pnl_realized-Books scale m small s b))
                    (if_branches Balances (text_eq action (codes "FUNDING"))
                      (with_amount-Balances funding_applied
                        (funding_applied-Books scale m small s b))
                      (if_branches Balances (text_eq action (codes "FEE"))
                        (with_amount-Balances fee_applied (fee_applied-Books scale m small s b))
                        (if_branches Balances (text_eq action (codes "UPDATE_MARKS"))
                          marks_updated-Balances (unchanged _)))))))))

conclude-Books :
    (n : Numerals) (scale k : ℕ) (e : Event) (ids : List ℕ)
    (o : Outcome (Unit {0}) × PortfolioManager)
    → k ≤ 10 ^ 27
    → o.0 ≡ ok tt
    → Books scale k o.1
    → (r : PortfolioSnapshot) × ((conclude n e ids o).0 ≡ ok r)
      × Books scale k (conclude n e ids o).1
unfolding conclude
conclude-Books n scale k e ids (err x, s) small h b = cc h
conclude-Books n scale k e ids (ok u, s) small h b =
    let after : PortfolioManager = record s {
      applied_event_ids = e.event_id ∷ ids;
      updated_at_utc = e.timestamp_utc;
    } in
    let same : Books scale k after = record {
      cash = b.cash;
      reserved = b.reserved;
      used = b.used;
      unrealized = b.unrealized;
      realized = b.realized;
      funding = b.funding;
      fees = b.fees;
      deposits = b.deposits;
      withdrawals = b.withdrawals;
      conserved = b.conserved;
    } in
    (snapshot after, rw (Books-is_balanced scale k after small same) refl, same)

event_effect-read :
    (n : Numerals) (s : PortfolioManager) (e : Event) (action : Text) (details : Fields)
    → as_text (get (codes "action") e.payload) ≡ ok action
    → as_fields_or_empty (get (codes "details") e.payload) ≡ ok details
    → event_effect n e s ≡ effect n action details s
unfolding event_effect
event_effect-read n s e action details h k = ground (arith, h, k)

-- Let the portfolio's cash, reserved and used margin, unrealized PnL and five cumulative ledgers, the
-- amount and the unrealized PnL that an event brings and the margins held for its position each have
-- the same scale, or be the zero of a new account, and at most m units of that scale, with m at most
-- 10 ^ 26; and let available cash, reserved and used margin together be exactly deposits less
-- withdrawals, with realized PnL and funding added and fees taken off. Then an event whose action and
-- details can be read and whose branch raises nothing is applied without an exception, so the
-- accounting assertion holds; the same equation holds after it, and none of the nine has more than 3 m
-- units.
pub apply_event-Books :
    (n : Numerals) (scale m : ℕ) (s : PortfolioManager) (e : Event) (action : Text)
    (details : Fields)
    → m ≤ 10 ^ 26
    → Books scale m s
    → AmountsFit n scale m details s
    → as_text (get (codes "action") e.payload) ≡ ok action
    → as_fields_or_empty (get (codes "details") e.payload) ≡ ok details
    → (effect n action details s).0 ≡ ok tt
    → (r : PortfolioSnapshot) × ((apply_event n e s).0 ≡ ok r)
      × Books scale (m + m + m) (apply_event n e s).1
unfolding apply_event
apply_event-Books n scale m s e action details small b fit read_action read_details works =
    elim (Bool-cases (has_id e.event_id s.applied_event_ids)) [
      | inl old ↦ rw old (snapshot s, refl, Books-wider b (omega arith))
      | inr new ↦
          rw (new, event_effect-read n s e action details read_action read_details)
            (conclude-Books n scale (m + m + m) e s.applied_event_ids (effect n action details s)
              (omega arith) works (effect-Balances n scale m details s small b fit action).books)
    ]
