-- ===== src/Risk/RiskManager/Checks.antt =====
-- What `check` of src/risk/risk_manager.cpp lets through, and which limit it names.
use finam_tradebot.Prelude.{◌≡◌, refl, ◌↔◌, ◌⊎◌, inl, inr, true, false, not, ◌&&◌, ◌||◌, arith}
use finam_tradebot.Core.Types.{Result, ok, err, Error, Timestamp, OrderRequest, ◌>>◌}
use finam_tradebot.Double.{Double, ◌⊗◌, ◌⊘◌, whole}
use finam_tradebot.Risk.RiskManager.{
  RiskManager, Assets, check, check_circuit_breaker, check_daily_loss, check_drawdown,
  check_position_count, check_expiry, check_margin, loss_pct, drawdown_pct, fetch_initial_margin,
  margin_limits, is_buy,
}

passes_iff : (m k : Result (Unit {0})) → ((m >> k) ≡ ok tt) ↔ ((m ≡ ok tt) × (k ≡ ok tt))
passes_iff (ok tt) k = (λ h. (refl, h), λ h. h.1)
passes_iff (err e) k = ((λ h. cc), λ h. cc)

Result-cases : {A : Type 0} (m : Result A) → ((a : A) × (m ≡ ok a)) ⊎ ((e : Error) × (m ≡ err e))
Result-cases (ok a) = inl (a, refl)
Result-cases (err e) = inr (e, refl)

module _ {W : Type 0} ⦃d : Double W⦄ where
  -- The limits on the account.
  pub record WithinLimits (r : RiskManager W) : Type 0 where
    pub running : r.tripped ≡ false
    pub loss :
        (d.lt r.state.liquid_value (whole 1) || not (d.le r.cfg.max_daily_loss_pct (loss_pct r)))
        ≡ true
    pub drawdown :
        (d.lt r.peak_liquid (whole 1) || not (d.le r.cfg.max_drawdown_pct (drawdown_pct r))) ≡ true
    pub positions : d.le (d.of_ℤ r.cfg.max_positions) r.state.open_positions ≡ false

  -- A margin fits the free margin and, of an account worth more than 1, the share of one trade.
  abbrev pub MarginFits : W → RiskManager W → Type 0
  MarginFits required r =
      (d.lt r.state.free_margin required ≡ false)
      × ((d.lt (whole 1) r.state.liquid_value
            && d.lt (r.state.liquid_value ⊗ r.cfg.per_trade_pct ⊘ whole 100) required)
          ≡ false)

  abbrev pub MarginOk : Result W → OrderRequest W → RiskManager W → Type 0
  MarginOk (err e) req r = Unit
  MarginOk (ok margin) req r = MarginFits (margin ⊗ d.of_ℤ req.quantity) r

  breaker_iff : (r : RiskManager W) → (check_circuit_breaker r ≡ ok tt) ↔ (r.tripped ≡ false)
  unfolding check_circuit_breaker
  breaker_iff r = ground arith

  loss_iff :
      (r : RiskManager W)
      → (check_daily_loss r ≡ ok tt) ↔ (
          (d.lt r.state.liquid_value (whole 1) || not (d.le r.cfg.max_daily_loss_pct (loss_pct r)))
          ≡ true)
  unfolding check_daily_loss
  loss_iff r = ground arith

  drawdown_iff :
      (r : RiskManager W)
      → (check_drawdown r ≡ ok tt) ↔ (
          (d.lt r.peak_liquid (whole 1) || not (d.le r.cfg.max_drawdown_pct (drawdown_pct r)))
          ≡ true)
  unfolding check_drawdown
  drawdown_iff r = ground arith

  positions_iff :
      (r : RiskManager W)
      → (check_position_count r ≡ ok tt)
        ↔ (d.le (d.of_ℤ r.cfg.max_positions) r.state.open_positions ≡ false)
  unfolding check_position_count
  positions_iff r = ground arith

  MarginOk-iff :
      (assets : Assets) (req : OrderRequest W) (r : RiskManager W)
      → (check_margin assets req r ≡ ok tt)
        ↔ MarginOk (fetch_initial_margin assets req.symbol (is_buy req.side)) req r
  unfolding check_margin margin_limits
  MarginOk-iff assets req r =
      let m : Result W = fetch_initial_margin assets req.symbol (is_buy req.side) in
      elim (Result-cases m) [
        | inl (a, e) ↦ rw (e, check_margin) (ground arith)
        | inr (f, e) ↦ rw (e, check_margin) (ground arith)
      ]

  -- An order passes `check` exactly when the breaker has not tripped, the account is within the
  -- limits on loss, drawdown and positions, the contract is not expiring, and its margin fits, where
  -- the margin is known. (Where the call for the margin fails, no margin is asked for.)
  pub check_iff :
      (assets : Assets) (now : Timestamp) (req : OrderRequest W) (r : RiskManager W)
      → (check assets now req r ≡ ok tt) ↔ (
          WithinLimits r
          × (check_expiry req.symbol now r ≡ ok tt)
          × MarginOk (fetch_initial_margin assets req.symbol (is_buy req.side)) req r)
  unfolding check
  check_iff assets now req r = (
    λ h.
        let (b, h₁) = (passes_iff _ _).0 h in
        let (l, h₂) = (passes_iff _ _).0 h₁ in
        let (w, h₃) = (passes_iff _ _).0 h₂ in
        let (p, h₄) = (passes_iff _ _).0 h₃ in
        let (e, m) = (passes_iff _ _).0 h₄ in
        (
          record {
            running = (breaker_iff r).0 b;
            loss = (loss_iff r).0 l;
            drawdown = (drawdown_iff r).0 w;
            positions = (positions_iff r).0 p;
          },
          e,
          (MarginOk-iff assets req r).0 m,
        ),
    λ (w, e, m). (passes_iff _ _).1 (
      (breaker_iff r).1 w.running,
      (passes_iff _ _).1 (
        (loss_iff r).1 w.loss,
        (passes_iff _ _).1 (
          (drawdown_iff r).1 w.drawdown,
          (passes_iff _ _).1 (
            (positions_iff r).1 w.positions,
            (passes_iff _ _).1 (e, (MarginOk-iff assets req r).1 m),
          ),
        ),
      ),
    ),
  )
