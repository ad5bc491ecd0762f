-- ===== src/PortfolioManager/Conservation.antt =====
-- The accounting of the portfolio manager in the range where its sums are exact: the branches of
-- `_apply_event` keep the money that is held equal to the money that the cumulative ledgers account for.
pub mod Assertion
use turtle_qts_execution.Base.{
  ℕ, ◌+◌, ◌^◌, ◌<◌, ◌≤◌, ◌≡◌, refl, ap, arith, true, inr, pos_part, neg_part, Text, codes, Fields,
  get, get_or, Outcome, ok, err, ℤ, ◌+ℤ◌, ◌-ℤ◌, Decimal, dec, add_dec, sub_dec, Numerals, as_text,
  as_decimal, if_branches, text_eq,
}
use turtle_qts_execution.Base.Exact.{
  Fits, add_dec-exact, sub_dec-exact, eq_dec-exact, int_laws, +ℤ_parts, -ℤ_parts, eq_of_parts,
}
use turtle_qts_execution.PortfolioManager.Snapshot.{wallet_balance, equity, assets, liabilities}
use turtle_qts_execution.PortfolioManager.Ledger.{
  PortfolioManager, snapshot, is_balanced, deposited, withdrawn, margin_reserved, margin_allocated,
  margin_released, pnl_realized, funding_applied, fee_applied,
}

-- Every amount has the same scale (or is the zero of a new account) and a limited size; and available cash,
-- reserved and used margin together are exactly deposits less withdrawals, with realized PnL and funding added
-- and fees taken off.
pub record Books (scale m : ℕ) (s : PortfolioManager) : Type 0 where
  pub cash : Fits scale m s.available_cash
  pub reserved : Fits scale m s.reserved_margin
  pub used : Fits scale m s.used_margin
  pub unrealized : Fits scale m s.unrealized_pnl
  pub realized : Fits scale m s.realized_pnl_cumulative
  pub funding : Fits scale m s.funding_cumulative
  pub fees : Fits scale m s.fees_cumulative
  pub deposits : Fits scale m s.deposits_cumulative
  pub withdrawals : Fits scale m s.withdrawals_cumulative
  pub conserved :
      s.available_cash.units +ℤ s.reserved_margin.units +ℤ s.used_margin.units
      ≡ s.deposits_cumulative.units -ℤ s.withdrawals_cumulative.units
        +ℤ s.realized_pnl_cumulative.units +ℤ s.funding_cumulative.units -ℤ s.fees_cumulative.units

wider : {scale m k : ℕ} {d : Decimal} → Fits scale m d → m ≤ k → Fits scale k d
wider f h = record { small = omega (arith, f.small, h); scaled = f.scaled }

parts_of_eq : (a b : ℤ) → a ≡ b → pos_part a + neg_part b ≡ pos_part b + neg_part a
parts_of_eq a b h = rw h refl

pub Books-wider : {scale m k : ℕ} {s : PortfolioManager} → Books scale m s → m ≤ k → Books scale k s
Books-wider b h = record {
  cash = wider b.cash h;
  reserved = wider b.reserved h;
  used = wider b.used h;
  unrealized = wider b.unrealized h;
  realized = wider b.realized h;
  funding = wider b.funding h;
  fees = wider b.fees h;
  deposits = wider b.deposits h;
  withdrawals = wider b.withdrawals h;
  conserved = b.conserved;
}

module _ (scale m : ℕ) (small : m ≤ 10 ^ 26) (s : PortfolioManager) (b : Books scale m s) where
  w : Books scale (m + m + m) s
  w = Books-wider b (omega arith)

  pub deposited-Books :
      (amt : Decimal) → Fits scale m amt → Books scale (m + m + m) (deposited amt s)
  unfolding deposited
  deposited-Books amt f =
      let (e0, f0) = add_dec-exact scale m m s.available_cash amt b.cash f (omega arith) in
      let (e1, f1) = add_dec-exact scale m m s.deposits_cumulative amt b.deposits f (omega arith) in
      record {
        cash = wider f0 (omega arith);
        reserved = w.reserved;
        used = w.used;
        unrealized = w.unrealized;
        realized = w.realized;
        funding = w.funding;
        fees = w.fees;
        deposits = wider f1 (omega arith);
        withdrawals = w.withdrawals;
        conserved = rw (e0, e1) (omega (int_laws, parts_of_eq _ _ b.conserved));
      }

  pub withdrawn-Books :
      (amt : Decimal) → Fits scale m amt → Books scale (m + m + m) (withdrawn amt s)
  unfolding withdrawn
  withdrawn-Books amt f =
      let (e0, f0) = sub_dec-exact scale m m s.available_cash amt b.cash f (omega arith) in
      let (e1, f1) =
        add_dec-exact scale m m s.withdrawals_cumulative amt b.withdrawals f (omega arith) in
      record {
        cash = wider f0 (omega arith);
        reserved = w.reserved;
        used = w.used;
        unrealized = w.unrealized;
        realized = w.realized;
        funding = w.funding;
        fees = w.fees;
        deposits = w.deposits;
        withdrawals = wider f1 (omega arith);
        conserved = rw (e0, e1) (omega (int_laws, parts_of_eq _ _ b.conserved));
      }

  pub margin_reserved-Books :
      (pid : Text) (amt : Decimal)
      → Fits scale m amt
      → Books scale (m + m + m) (margin_reserved pid amt s)
  unfolding margin_reserved
  margin_reserved-Books pid amt f =
      let (e0, f0) = sub_dec-exact scale m m s.available_cash amt b.cash f (omega arith) in
      let (e1, f1) = add_dec-exact scale m m s.reserved_margin amt b.reserved f (omega arith) in
      record {
        cash = wider f0 (omega arith);
        reserved = wider f1 (omega arith);
        used = w.used;
        unrealized = w.unrealized;
        realized = w.realized;
        funding = w.funding;
        fees = w.fees;
        deposits = w.deposits;
        withdrawals = w.withdrawals;
        conserved = rw (e0, e1) (omega (int_laws, parts_of_eq _ _ b.conserved));
      }

  pub margin_allocated-Books :
      (pid : Text) (amt : Decimal)
      → Fits scale m amt
      → Books scale (m + m + m) (margin_allocated pid amt s)
  unfolding margin_allocated
  margin_allocated-Books pid amt f =
      let (e0, f0) = sub_dec-exact scale m m s.reserved_margin amt b.reserved f (omega arith) in
      let (e1, f1) = add_dec-exact scale m m s.used_margin amt b.used f (omega arith) in
      record {
        cash = w.cash;
        reserved = wider f0 (omega arith);
        used = wider f1 (omega arith);
        unrealized = w.unrealized;
        realized = w.realized;
        funding = w.funding;
        fees = w.fees;
        deposits = w.deposits;
        withdrawals = w.withdrawals;
        conserved = rw (e0, e1) (omega (int_laws, parts_of_eq _ _ b.conserved));
      }

  pub pnl_realized-Books :
      (amt : Decimal) → Fits scale m amt → Books scale (m + m + m) (pnl_realized amt s)
  unfolding pnl_realized
  pnl_realized-Books amt f =
      let (e0, f0) = add_dec-exact scale m m s.available_cash amt b.cash f (omega arith) in
      let (e1, f1) =
        add_dec-exact scale m m s.realized_pnl_cumulative amt b.realized f (omega arith) in
      record {
        cash = wider f0 (omega arith);
        reserved = w.reserved;
        used = w.used;
        unrealized = w.unrealized;
        realized = wider f1 (omega arith);
        funding = w.funding;
        fees = w.fees;
        deposits = w.deposits;
        withdrawals = w.withdrawals;
        conserved = rw (e0, e1) (omega (int_laws, parts_of_eq _ _ b.conserved));
      }

  pub funding_applied-Books :
      (amt : Decimal) → Fits scale m amt → Books scale (m + m + m) (funding_applied amt s)
  unfolding funding_applied
  funding_applied-Books amt f =
      let (e0, f0) = add_dec-exact scale m m s.available_cash amt b.cash f (omega arith) in
      let (e1, f1) = add_dec-exact scale m m s.funding_cumulative amt b.funding f (omega arith) in
      record {
        cash = wider f0 (omega arith);
        reserved = w.reserved;
        used = w.used;
        unrealized = w.unrealized;
        realized = w.realized;
        funding = wider f1 (omega arith);
        fees = w.fees;
        deposits = w.deposits;
        withdrawals = w.withdrawals;
        conserved = rw (e0, e1) (omega (int_laws, parts_of_eq _ _ b.conserved));
      }

  pub fee_applied-Books :
      (amt : Decimal) → Fits scale m amt → Books scale (m + m + m) (fee_applied amt s)
  unfolding fee_applied
  fee_applied-Books amt f =
      let (e0, f0) = sub_dec-exact scale m m s.available_cash amt b.cash f (omega arith) in
      let (e1, f1) = add_dec-exact scale m m s.fees_cumulative amt b.fees f (omega arith) in
      record {
        cash = wider f0 (omega arith);
        reserved = w.reserved;
        used = w.used;
        unrealized = w.unrealized;
        realized = w.realized;
        funding = w.funding;
        fees = wider f1 (omega arith);
        deposits = w.deposits;
        withdrawals = w.withdrawals;
        conserved = rw (e0, e1) (omega (int_laws, parts_of_eq _ _ b.conserved));
      }

  pub margin_released-Books :
      (pid : Text)
      → Fits scale m (get_or pid (dec 0) s.reserved_by_position)
      → Fits scale m (get_or pid (dec 0) s.used_by_position)
      → Books scale (m + m + m) (margin_released pid s)
  unfolding margin_released
  margin_released-Books pid fr fu =
      let held = get_or pid (dec 0) s.reserved_by_position in
      let in_use = get_or pid (dec 0) s.used_by_position in
      let (e0, f0) = add_dec-exact scale m m held in_use fr fu (omega arith) in
      let (e1, f1) =
        add_dec-exact scale m (m + m) s.available_cash (add_dec held in_use) b.cash f0
          (omega arith) in
      let (e2, f2) = sub_dec-exact scale m m s.reserved_margin held b.reserved fr (omega arith) in
      let (e3, f3) = sub_dec-exact scale m m s.used_margin in_use b.used fu (omega arith) in
      record {
        cash = wider f1 (omega arith);
        reserved = wider f2 (omega arith);
        used = wider f3 (omega arith);
        unrealized = w.unrealized;
        realized = w.realized;
        funding = w.funding;
        fees = w.fees;
        deposits = w.deposits;
        withdrawals = w.withdrawals;
        conserved = rw (e1, e0, e2, e3) (omega (int_laws, parts_of_eq _ _ b.conserved));
      }

  -- The cached marks do not enter the books, but for the unrealized PnL's size.
  pub marked-Books :
      (s' : PortfolioManager)
      → Fits scale m s'.unrealized_pnl
      → s' ≡ record s { unrealized_pnl = s'.unrealized_pnl; exposure = s'.exposure; heat = s'.heat }
      → Books scale (m + m + m) s'
  marked-Books s' f h = rw h (record {
    cash = w.cash;
    reserved = w.reserved;
    used = w.used;
    unrealized = wider f (omega arith);
    realized = w.realized;
    funding = w.funding;
    fees = w.fees;
    deposits = w.deposits;
    withdrawals = w.withdrawals;
    conserved = b.conserved;
  })

-- Books that balance exactly pass the accounting assertion.
pub Books-is_balanced :
    (scale m : ℕ) (s : PortfolioManager)
    → m ≤ 10 ^ 27
    → Books scale m s
    → is_balanced (snapshot s) ≡ true
unfolding is_balanced snapshot assets liabilities equity wallet_balance
Books-is_balanced scale m s small b =
    let (e1, f1) =
      add_dec-exact scale m m s.available_cash s.reserved_margin b.cash b.reserved (omega arith) in
    let (e2, f2) = add_dec-exact scale (m + m) m _ s.used_margin f1 b.used (omega arith) in
    let (e3, f3) =
      add_dec-exact scale (m + m + m) m _ s.unrealized_pnl f2 b.unrealized (omega arith) in
    let (d1, g1) =
      sub_dec-exact scale m m s.deposits_cumulative s.withdrawals_cumulative b.deposits
        b.withdrawals (omega arith) in
    let (d2, g2) =
      add_dec-exact scale (m + m) m _ s.realized_pnl_cumulative g1 b.realized (omega arith) in
    let (d3, g3) =
      add_dec-exact scale (m + m + m) m _ s.funding_cumulative g2 b.funding (omega arith) in
    let (d4, g4) =
      sub_dec-exact scale (m + m + m + m) m _ s.fees_cumulative g3 b.fees (omega arith) in
    let (d5, g5) =
      add_dec-exact scale (m + m + m + m + m) m _ s.unrealized_pnl g4 b.unrealized (omega arith) in
    let zero_fits : Fits scale 0 (dec 0) = record { small = omega arith; scaled = inr refl } in
    let (d6, g6) =
      add_dec-exact scale 0 (m + m + m + m + m + m) (dec 0) _ zero_fits g5 (omega arith) in
    eq_dec-exact scale (m + m + m + m) (0 + (m + m + m + m + m + m)) _ _ f3 g6
      (rw (e3, e2, e1, d6, d5, d4, d3, d2, d1) (omega (int_laws, parts_of_eq _ _ b.conserved)))
