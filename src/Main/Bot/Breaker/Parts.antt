-- ===== src/Main/Bot/Breaker/Parts.antt =====
-- What the circuit breaker does to a fill, an update and a check in src/main.cpp.
use finam_tradebot.Prelude.{◌≡◌, refl, ◌∙◌, ◌⊎◌, inl, inr, true, Option, some, List, [], ◌∷◌, arith}
use finam_tradebot.Prelude.Text.{Text}
use finam_tradebot.Core.Types.{Timestamp, OrderRequest, OrderUpdate}
use finam_tradebot.Double.{Double}
use finam_tradebot.Risk.RiskManager.{
  RiskManager, Reply, reply, failure, AccountReply, on_fill, close_pos, refresh_account,
  trip_circuit_breaker, check_circuit_breaker,
}
use finam_tradebot.Strategy.Runner.{Runner, Env, on_update}
use finam_tradebot.Strategy.Runner.Task.{
  Check, breaker, daily_loss, drawdown, positions, expiry, margin, checking, next_check, sub_check,
  ask, after_sub_check, pending,
}
use finam_tradebot.Main.{broadcast}
use finam_tradebot.Main.Bot.{trip}

module _ {W : Type 0} ⦃d : Double W⦄ where
  -- The shared risk manager has a breaker that has tripped for a reason.
  abbrev pub Tripped : Text → Option (RiskManager W) → Type 0
  Tripped reason risk =
      (m : RiskManager W) × (risk ≡ some m) × (m.tripped ≡ true) × (m.trip_reason ≡ reason)

  on_fill-tripped :
      (upd : OrderUpdate W) (m : RiskManager W)
      → ((on_fill upd m).tripped ≡ m.tripped) × ((on_fill upd m).trip_reason ≡ m.trip_reason)
  unfolding on_fill close_pos
  on_fill-tripped upd m = ground arith

  pub refresh-tripped :
      (a : Reply AccountReply) (now : Timestamp) (m : RiskManager W)
      → let m' = (refresh_account a now m).0 in
        (m'.tripped ≡ m.tripped) × (m'.trip_reason ≡ m.trip_reason)
  unfolding refresh_account
  refresh-tripped (reply a) now m = (refl, refl)
  refresh-tripped (failure msg) now m = (refl, refl)

  on_update-risk :
      (upd : OrderUpdate W) (r : Runner W) (m : RiskManager W)
      → r.risk ≡ some m
      → ((on_update upd r).0.risk ≡ some m) ⊎ ((on_update upd r).0.risk ≡ some (on_fill upd m))
  unfolding on_update
  on_update-risk upd r m has = ground arith

  on_update-Tripped :
      (reason : Text) (upd : OrderUpdate W) (r : Runner W)
      → Tripped reason r.risk
      → Tripped reason (on_update upd r).0.risk
  on_update-Tripped reason upd r (m, has, t, why) = elim (on_update-risk upd r m has) [
    | inl same ↦ (m, same, t, why)
    | inr booked ↦
        let (t', why') = on_fill-tripped upd m in (on_fill upd m, booked, t' ∙ t, why' ∙ why)
  ]

  pub broadcast-Tripped :
      (reason : Text) (upd : OrderUpdate W) (rs : List (Runner W)) (risk : Option (RiskManager W))
      → Tripped reason risk
      → Tripped reason (broadcast upd rs risk).0
  unfolding broadcast
  broadcast-Tripped reason upd [] risk trip = trip
  broadcast-Tripped reason upd (r ∷ rs) risk trip =
      broadcast-Tripped reason upd rs (on_update upd (record r { risk = risk })).0.risk
        (on_update-Tripped reason upd (record r { risk = risk }) trip)

  pub trip-Tripped :
      (reason why : Text) (risk : Option (RiskManager W))
      → Tripped reason risk
      → Tripped reason (trip why risk)
  unfolding trip trip_circuit_breaker
  trip-Tripped reason why risk (m, has, t, same) = (m, rw (has, t), t, same)

  -- A thread that has just asked the tripped manager is past the breaker only if it was before.
  pub after_sub_check-pending :
      (reason : Text) (c : Check) (env : Env W) (req req' : OrderRequest W)
      → (risk : Option (RiskManager W)) → Tripped reason risk
      → pending (after_sub_check c req (ask c env req risk)) ≡ some req'
      → pending (checking c req) ≡ some req'
  unfolding after_sub_check next_check ask sub_check check_circuit_breaker
  after_sub_check-pending reason breaker env req req' risk (m, has, t, same) p =
      absurd (ground (arith, has, t, p))
  after_sub_check-pending reason daily_loss env req req' risk trip_ p = ground arith
  after_sub_check-pending reason drawdown env req req' risk trip_ p = ground arith
  after_sub_check-pending reason positions env req req' risk trip_ p = ground arith
  after_sub_check-pending reason expiry env req req' risk trip_ p = ground arith
  after_sub_check-pending reason margin env req req' risk trip_ p = ground arith
