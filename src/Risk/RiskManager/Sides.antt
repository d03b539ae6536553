-- ===== src/Risk/RiskManager/Sides.antt =====
-- The sides of the positions that the risk manager of src/risk/risk_manager.cpp holds.
use finam_tradebot.Prelude.{
  ◌≡◌, refl, ◌⊎◌, inl, inr, Bool, true, false, not, Bool-cases, none, some, List, [], ◌∷◌, arith,
  if◌then◌else◌,
}
use finam_tradebot.Prelude.Int.{ℤ, pos, ltb_ℤ, ◌-ℤ◌}
use finam_tradebot.Prelude.Map.{Map, insert, AllValues, AllValues-insert}
use finam_tradebot.Core.Types.{Timestamp, OrderUpdate}
use finam_tradebot.Double.{Double}
use finam_tradebot.Risk.RiskManager.{
  RiskManager, RiskConfig, OpenPos, make, PollRound, poll, Reply, reply, failure, AccountReply,
  refresh_account, on_fill, close_pos, opened, take_opposite, trip_circuit_breaker, is_buy,
}
use finam_tradebot.Risk.RiskManager.Account.{Event, refresh, fill, trip, polls, apply, apply_all}

long-short : (q : ℤ) → ltb_ℤ (pos 0) q ≡ true → ltb_ℤ q (pos 0) ≡ false
long-short q h = ground (arith, h)

short-long : (q : ℤ) → ltb_ℤ q (pos 0) ≡ true → ltb_ℤ (pos 0) q ≡ false
short-long q h = ground (arith, h)

sides : (a b : Bool) → (a ≡ b) ⊎ (a ≡ not b)
sides true true = inl refl
sides true false = inr refl
sides false true = inr refl
sides false false = inl refl

module _ {W : Type 0} where
  -- On the side of a buy, or on the side of a sell.
  abbrev pub IsOnSide : Bool → OpenPos W → Type 0
  IsOnSide bought p = (if bought then ltb_ℤ (pos 0) p.qty else ltb_ℤ p.qty (pos 0)) ≡ true

  -- All positions are long, or all are short.
  abbrev pub OneSided : RiskManager W → Type 0
  OneSided r = (bought : Bool) × AllValues (IsOnSide bought) r.open_pos

module _ {W : Type 0} ⦃d : Double W⦄ where
  take_opposite-empty : (buying : Bool) → take_opposite {W = W} buying [] ≡ none
  unfolding take_opposite
  take_opposite-empty buying = refl

  -- A fill on the side of the positions finds none to close.
  take_opposite-same :
      (bought : Bool) (m : Map (OpenPos W))
      → AllValues (IsOnSide bought) m
      → take_opposite bought m ≡ none
  unfolding take_opposite
  take_opposite-same bought [] all = refl
  take_opposite-same true ((k, p) ∷ m) all =
      rw (long-short p.qty all.0, take_opposite-same true m all.1)
  take_opposite-same false ((k, p) ∷ m) all =
      rw (short-long p.qty all.0, take_opposite-same false m all.1)

  -- A fill on the other side takes the first.
  take_opposite-first :
      (bought : Bool) (k : ℤ) (p : OpenPos W) (m : Map (OpenPos W))
      → IsOnSide bought p
      → take_opposite (not bought) ((k, p) ∷ m) ≡ some (p, m)
  unfolding take_opposite
  take_opposite-first true k p m on = rw on
  take_opposite-first false k p m on = rw on

  opened-IsOnSide :
      (upd : OrderUpdate W)
      → ltb_ℤ (pos 0) upd.qty_filled ≡ true
      → IsOnSide (is_buy upd.side) (opened upd)
  unfolding opened ◌-ℤ◌
  opened-IsOnSide upd q = ground arith

  close_pos-open_pos :
      (pnl : W) (rest : Map (OpenPos W)) (r : RiskManager W)
      → (close_pos pnl rest r).open_pos ≡ rest
  unfolding close_pos
  close_pos-open_pos pnl rest r = refl

  pub on_fill-nothing :
      (upd : OrderUpdate W) (r : RiskManager W)
      → ltb_ℤ (pos 0) upd.qty_filled ≡ false
      → on_fill upd r ≡ r
  unfolding on_fill
  on_fill-nothing upd r nothing = rw nothing

  on_fill-opens :
      (upd : OrderUpdate W) (r : RiskManager W) (m : Map (OpenPos W))
      → ltb_ℤ (pos 0) upd.qty_filled ≡ true
      → r.open_pos ≡ m
      → take_opposite (is_buy upd.side) m ≡ none
      → (on_fill upd r).open_pos ≡ insert upd.transaction_id (opened upd) m
  unfolding on_fill
  on_fill-opens upd r m qty holds nothing = ground (arith, qty, holds, nothing)

  on_fill-closes :
      (upd : OrderUpdate W) (r : RiskManager W) (m rest : Map (OpenPos W)) (p : OpenPos W)
      → ltb_ℤ (pos 0) upd.qty_filled ≡ true
      → r.open_pos ≡ m
      → take_opposite (is_buy upd.side) m ≡ some (p, rest)
      → (on_fill upd r).open_pos ≡ rest
  unfolding on_fill close_pos
  on_fill-closes upd r m rest p qty holds found = ground (arith, qty, holds, found)

  filled-OneSided :
      (upd : OrderUpdate W) (r : RiskManager W) (bought : Bool) (m : Map (OpenPos W))
      → ltb_ℤ (pos 0) upd.qty_filled ≡ true
      → r.open_pos ≡ m
      → AllValues (IsOnSide bought) m
      → OneSided (on_fill upd r)
  unfolding insert
  filled-OneSided upd r bought [] qty holds all = (
    is_buy upd.side,
    rw (on_fill-opens upd r [] qty holds (take_opposite-empty (is_buy upd.side)))
        (opened-IsOnSide upd qty, tt),
  )
  filled-OneSided upd r bought ((k, p) ∷ m) qty holds all =
      let m₁ : Map (OpenPos W) = (k, p) ∷ m in
      elim (sides (is_buy upd.side) bought) [
        | inl same ↦
            let nothing : take_opposite (is_buy upd.side) m₁ ≡ none =
              rw same (take_opposite-same bought m₁ all) in
            let on : IsOnSide bought (opened upd) = rw (← same) (opened-IsOnSide upd qty) in
            (
              bought,
              rw (on_fill-opens upd r m₁ qty holds nothing)
                  (AllValues-insert (IsOnSide bought) upd.transaction_id (opened upd) m₁ on all),
            )
        | inr other ↦
            let found : take_opposite (is_buy upd.side) m₁ ≡ some (p, m) =
              rw other (take_opposite-first bought k p m all.0) in
            (bought, rw (on_fill-closes upd r m₁ m p qty holds found) all.1)
      ]

  on_fill-OneSided :
      (upd : OrderUpdate W) (r : RiskManager W) → OneSided r → OneSided (on_fill upd r)
  on_fill-OneSided upd r (bought, all) = elim (Bool-cases (ltb_ℤ (pos 0) upd.qty_filled)) [
    | inl qty ↦ filled-OneSided upd r bought r.open_pos qty refl all
    | inr nothing ↦ rw (on_fill-nothing upd r nothing) (bought, all)
  ]

  refresh-open_pos :
      (a : Reply AccountReply) (now : Timestamp) (r : RiskManager W)
      → (refresh_account a now r).0.open_pos ≡ r.open_pos
  unfolding refresh_account
  refresh-open_pos (reply a) now r = refl
  refresh-open_pos (failure msg) now r = refl

  poll-open_pos : (ps : List PollRound) (r : RiskManager W) → (poll ps r).open_pos ≡ r.open_pos
  unfolding poll
  poll-open_pos [] r = refl
  poll-open_pos (x ∷ xs) r = ground (
    arith,
    poll-open_pos xs (refresh_account x.answer x.now r).0,
    refresh-open_pos x.answer x.now r,
  )

  apply-OneSided : (e : Event W) (r : RiskManager W) → OneSided r → OneSided (apply e r)
  unfolding trip_circuit_breaker
  apply-OneSided (refresh a now) r (bought, all) = (bought, rw (refresh-open_pos a now r) all)
  apply-OneSided (fill upd) r one = on_fill-OneSided upd r one
  apply-OneSided (trip reason) r one = ground (arith, one)
  apply-OneSided (polls ps) r (bought, all) = (bought, rw (poll-open_pos ps r) all)

  apply_all-OneSided_from :
      (es : List (Event W)) (r : RiskManager W) → OneSided r → OneSided (apply_all es r)
  apply_all-OneSided_from [] r one = one
  apply_all-OneSided_from (e ∷ es) r one =
      apply_all-OneSided_from es (apply e r) (apply-OneSided e r one)

  -- From its construction on, whatever refreshes, polling rounds, fills of whatever instruments and
  -- trips a risk manager sees, the positions that it holds are all long or all short: it never holds a
  -- long position in one instrument and a short one in another.
  pub apply_all-OneSided :
      (c : RiskConfig W) (es : List (Event W)) → OneSided (apply_all es (make c))
  unfolding make
  apply_all-OneSided c es = apply_all-OneSided_from es (make c) (true, tt)
