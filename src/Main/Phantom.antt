-- ===== src/Main/Phantom.antt =====
-- What a closing fill that reaches several runners does to the risk manager.
use finam_tradebot.Prelude.{ℕ, zero, suc, ◌≡◌, ap, true, false, some, List, [], ◌∷◌, length, arith}
use finam_tradebot.Prelude.Int.{ℤ, pos, ltb_ℤ, ◌-ℤ◌}
use finam_tradebot.Prelude.Map.{insert, eqb_ℤ_refl}
use finam_tradebot.Prelude.Text.{is_empty}
use finam_tradebot.Core.Types.{OrderSide, OrderUpdate}
use finam_tradebot.Double.{Double}
use finam_tradebot.Risk.RiskManager.{
  RiskManager, OpenPos, on_fill, take_opposite, close_pos, opened,
}
use finam_tradebot.Strategy.Runner.{Runner}
use finam_tradebot.Main.{broadcast}
use finam_tradebot.Main.Broadcast.{is_fill, booked, broadcast-no_symbol}

module _ {W : Type 0} ⦃d : Double W⦄ where
  -- The risk manager holds one long position, and a sell fills it.
  abbrev pub ClosesLong : OrderUpdate W → ℤ → OpenPos W → RiskManager W → Type 0
  ClosesLong upd k p risk =
      (risk.open_pos ≡ (k, p) ∷ [])
      × (ltb_ℤ (pos 0) p.qty ≡ true)
      × (is_fill upd ≡ true)
      × (upd.side ≡ OrderSide.sell)

  -- A sell over short positions alone opens another one.
  on_fill-short :
      (upd : OrderUpdate W) (k : ℤ) (p : OpenPos W) (risk : RiskManager W)
      → is_fill upd ≡ true
      → upd.side ≡ OrderSide.sell
      → ltb_ℤ (pos 0) p.qty ≡ false
      → risk.open_pos ≡ (k, p) ∷ []
      → on_fill upd risk
        ≡ record risk { open_pos = insert upd.transaction_id (opened upd) ((k, p) ∷ []) }
  unfolding on_fill take_opposite
  on_fill-short upd k p risk fill sells short there = ground (arith, fill, sells, short, there)

  on_fill-flat :
      (upd : OrderUpdate W) (risk : RiskManager W)
      → is_fill upd ≡ true
      → risk.open_pos ≡ []
      → on_fill upd risk ≡ record risk { open_pos = (upd.transaction_id, opened upd) ∷ [] }
  unfolding on_fill take_opposite insert
  on_fill-flat upd risk fill flat = ground (arith, fill, flat)

  on_fill-long :
      (upd : OrderUpdate W) (k : ℤ) (p : OpenPos W) (risk : RiskManager W)
      → ClosesLong upd k p risk
      → (on_fill upd risk).open_pos ≡ []
  unfolding on_fill take_opposite close_pos
  on_fill-long upd k p risk (there, long, fill, sells) = ground (arith, there, long, fill, sells)

  sold-is_short :
      (upd : OrderUpdate W)
      → is_fill upd ≡ true
      → upd.side ≡ OrderSide.sell
      → ltb_ℤ (pos 0) (opened upd).qty ≡ false
  unfolding opened ◌-ℤ◌
  sold-is_short upd fill sells = ground (arith, fill, sells)

  booked-opened :
      (n : ℕ) (upd : OrderUpdate W) (risk : RiskManager W)
      → is_fill upd ≡ true
      → upd.side ≡ OrderSide.sell
      → risk.open_pos ≡ (upd.transaction_id, opened upd) ∷ []
      → (booked n upd risk).open_pos ≡ (upd.transaction_id, opened upd) ∷ []
  unfolding insert
  booked-opened zero upd risk fill sells there = there
  booked-opened (suc n) upd risk fill sells there =
      let again =
        on_fill-short upd upd.transaction_id (opened upd) risk fill sells
          (sold-is_short upd fill sells) there in
      rw (booked, fill)
        (booked-opened n upd (on_fill upd risk) fill sells
          (rw (again, insert, eqb_ℤ_refl upd.transaction_id)))

  -- A sell without a symbol that closes the only position, a long one, leaves the risk manager with a
  -- short position of the same size that nobody holds, if there are two runners or more.
  pub phantom_short :
      (upd : OrderUpdate W) (r₁ r₂ : Runner W) (rs : List (Runner W))
      → (k : ℤ) (p : OpenPos W) (risk : RiskManager W) → is_empty upd.symbol.security_code ≡ true
      → ClosesLong upd k p risk
      → (risk' : RiskManager W) × ((broadcast upd (r₁ ∷ r₂ ∷ rs) (some risk)).0 ≡ some risk')
        × (risk'.open_pos ≡ (upd.transaction_id, opened upd) ∷ [])
        × (ltb_ℤ (pos 0) (opened upd).qty ≡ false)
  phantom_short upd r₁ r₂ rs k p risk empty (there, long, fill, sells) =
      let flat = on_fill-long upd k p risk (there, long, fill, sells) in
      let opens = on_fill-flat upd (on_fill upd risk) fill flat in
      let kept =
        booked-opened (length rs) upd (on_fill upd (on_fill upd risk)) fill sells
          (ap (λ r. r.open_pos) opens) in
      (
        booked (suc (suc (length rs))) upd risk,
        ap (λ r. r.0) (broadcast-no_symbol upd (r₁ ∷ r₂ ∷ rs) risk empty),
        rw (booked, fill) kept,
        sold-is_short upd fill sells,
      )
