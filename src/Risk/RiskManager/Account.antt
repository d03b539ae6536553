-- ===== src/Risk/RiskManager/Account.antt =====
-- The account that src/risk/risk_manager.cpp keeps: the peak of its value, and the profit of a trade.
use finam_tradebot.Prelude.{
  ◌≡◌, refl, inl, inr, Bool, true, false, not, Option, List, [], ◌∷◌, arith, if◌then◌else◌,
  Bool-cases, Option-cases, ap,
}
use finam_tradebot.Prelude.Int.{ℤ, pos, ltb_ℤ, ◌-ℤ◌}
use finam_tradebot.Prelude.Map.{Map, insert}
use finam_tradebot.Prelude.Text.{Text}
use finam_tradebot.Core.Types.{Timestamp, OrderUpdate}
use finam_tradebot.Double.{Double, IsOrdered, ◌⊕◌, ◌⊖◌, ◌⊗◌, whole}
use finam_tradebot.Risk.RiskManager.{
  RiskManager, RiskConfig, OpenPos, make, PollRound, poll, Reply, reply, failure, AccountReply,
  account_of, refresh_account, on_fill, close_pos, close_pnl, opened, take_opposite,
  trip_circuit_breaker, is_buy,
}

not_or_self : (b : Bool) → (if not b then not b else b) ≡ true
not_or_self true = refl
not_or_self false = refl

-- What changes a risk manager: an answer to GetAccount, a fill, a refused check, the polling thread.
pub data Event (W : Type 0) : Type 0 where
  refresh : Reply AccountReply → Timestamp → Event W
  fill : OrderUpdate W → Event W
  trip : Text → Event W
  polls : List PollRound → Event W

module _ {W : Type 0} ⦃d : Double W⦄ where
  abbrev pub apply : Event W → RiskManager W → RiskManager W
  apply (refresh a now) r = (refresh_account a now r).0
  apply (fill upd) r = on_fill upd r
  apply (trip reason) r = trip_circuit_breaker reason r
  apply (polls ps) r = poll ps r

  abbrev pub apply_all : List (Event W) → RiskManager W → RiskManager W
  apply_all [] r = r
  apply_all (e ∷ es) r = apply_all es (apply e r)

  abbrev pub IsPeak : RiskManager W → Type 0
  IsPeak r = d.lt r.peak_liquid r.state.liquid_value ≡ false

  module _ (laws : IsOrdered W) where
    open laws use {lt_irrefl, lt_asym}

    close_pos-IsPeak :
        (pnl : W) (rest : Map (OpenPos W)) (r : RiskManager W) → IsPeak (close_pos pnl rest r)
    unfolding close_pos
    close_pos-IsPeak pnl rest r = ground (arith, lt_irrefl (r.state.liquid_value ⊕ pnl))

    on_fill-IsPeak : (upd : OrderUpdate W) (r : RiskManager W) → IsPeak r → IsPeak (on_fill upd r)
    unfolding on_fill
    on_fill-IsPeak upd r p = elim (Bool-cases (ltb_ℤ (pos 0) upd.qty_filled)) [
      | inr no_qty ↦ rw no_qty p
      | inl qty ↦
          let found : Option (OpenPos W × Map (OpenPos W)) =
            take_opposite (is_buy upd.side) r.open_pos in
          elim (Option-cases found) [
            | inl e ↦ rw (qty, e) p
            | inr ((q, rest), e) ↦ rw (qty, e) (close_pos-IsPeak (close_pnl upd q) rest r)
          ]
    ]

    refresh-IsPeak :
        (a : Reply AccountReply) (now : Timestamp) (r : RiskManager W)
        → IsPeak r
        → IsPeak (refresh_account a now r).0
    unfolding refresh_account
    refresh-IsPeak (failure m) now r p = p
    refresh-IsPeak (reply a) now r p = ground (arith, lt_irrefl (account_of a now).liquid_value)

    poll-IsPeak : (ps : List PollRound) (r : RiskManager W) → IsPeak r → IsPeak (poll ps r)
    unfolding poll
    poll-IsPeak [] r p = p
    poll-IsPeak (x ∷ xs) r p =
        let later =
          poll-IsPeak xs (refresh_account x.answer x.now r).0 (refresh-IsPeak x.answer x.now r p) in
        elim (Bool-cases x.stopped) [ inl stopped ↦ rw stopped p | inr runs ↦ rw runs later ]

    apply-IsPeak : (e : Event W) (r : RiskManager W) → IsPeak r → IsPeak (apply e r)
    unfolding trip_circuit_breaker
    apply-IsPeak (refresh a now) r p = refresh-IsPeak a now r p
    apply-IsPeak (fill upd) r p = on_fill-IsPeak upd r p
    apply-IsPeak (trip reason) r p = ground arith
    apply-IsPeak (polls ps) r p = poll-IsPeak ps r p

    apply_all-IsPeak_from :
        (es : List (Event W)) (r : RiskManager W) → IsPeak r → IsPeak (apply_all es r)
    apply_all-IsPeak_from [] r p = p
    apply_all-IsPeak_from (e ∷ es) r p = apply_all-IsPeak_from es (apply e r) (apply-IsPeak e r p)

    make-IsPeak : (c : RiskConfig W) → IsPeak (make c)
    unfolding make
    make-IsPeak c = lt_irrefl _

    -- From its construction on, whatever refreshes, polling rounds, fills and trips a risk manager
    -- sees, its peak is never below the value of the account.
    pub apply_all-IsPeak : (c : RiskConfig W) (es : List (Event W)) → IsPeak (apply_all es (make c))
    apply_all-IsPeak c es = apply_all-IsPeak_from es (make c) (make-IsPeak c)

  on_fill-first :
      (upd : OrderUpdate W) (r : RiskManager W)
      → r.open_pos ≡ []
      → ltb_ℤ (pos 0) upd.qty_filled ≡ true
      → on_fill upd r ≡ record r { open_pos = (upd.transaction_id, opened upd) ∷ [] }
  unfolding on_fill take_opposite insert
  on_fill-first upd r none_open q =
      rw (q, none_open)
        (ap (λ m. record r { open_pos = insert upd.transaction_id (opened upd) m }) none_open)

  -- The position that a fill opens is on its side.
  opened-side :
      (upd : OrderUpdate W)
      → ltb_ℤ (pos 0) upd.qty_filled ≡ true
      → (ltb_ℤ (pos 0) (opened upd).qty ≡ is_buy upd.side)
        × (ltb_ℤ (opened upd).qty (pos 0) ≡ not (is_buy upd.side))
  unfolding opened ◌-ℤ◌
  opened-side upd q = ground arith

  on_fill-second :
      (upd : OrderUpdate W) (k : ℤ) (p : OpenPos W) (r : RiskManager W)
      → r.open_pos ≡ (k, p) ∷ []
      → ltb_ℤ (pos 0) upd.qty_filled ≡ true
      → (if is_buy upd.side then ltb_ℤ p.qty (pos 0) else ltb_ℤ (pos 0) p.qty) ≡ true
      → on_fill upd r ≡ close_pos (close_pnl upd p) [] r
  unfolding on_fill take_opposite close_pos
  on_fill-second upd k p r one q opposite = rw (q, one, opposite)

  -- A fill on an account with no open position, then a fill on the other side: the position is gone
  -- and the profit of the day and the value of the account have moved by the price difference times
  -- the second quantity, with the sign of the first side. (The symbols play no part, and neither
  -- does the first quantity.)
  pub fill_round_trip :
      (upd₁ upd₂ : OrderUpdate W) (r : RiskManager W)
      → r.open_pos ≡ []
      → ltb_ℤ (pos 0) upd₁.qty_filled ≡ true
      → ltb_ℤ (pos 0) upd₂.qty_filled ≡ true
      → is_buy upd₂.side ≡ not (is_buy upd₁.side)
      → let pnl =
          (upd₂.price ⊖ upd₁.price)
          ⊗ d.of_ℤ upd₂.qty_filled
          ⊗ (if is_buy upd₁.side then whole 1 else d.neg (whole 1)) in
        on_fill upd₂ (on_fill upd₁ r) ≡ close_pos pnl [] r
  unfolding close_pnl close_pos opened
  fill_round_trip upd₁ upd₂ r none_open q₁ q₂ other =
      let (up, down) = opened-side upd₁ q₁ in
      let first : RiskManager W = record r { open_pos = (upd₁.transaction_id, opened upd₁) ∷ [] } in
      let opposite : (if is_buy upd₂.side
            then ltb_ℤ (opened upd₁).qty (pos 0)
            else ltb_ℤ (pos 0) (opened upd₁).qty)
          ≡ true =
        rw (other, up, down) (not_or_self (is_buy upd₁.side)) in
      rw (
        on_fill-first upd₁ r none_open q₁,
        on_fill-second upd₂ upd₁.transaction_id (opened upd₁) first refl q₂ opposite,
        up,
      )
