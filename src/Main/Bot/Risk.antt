-- ===== src/Main/Bot/Risk.antt =====
-- What becomes of the risk manager that src/main.cpp hands to all runners.
use finam_tradebot.Prelude.{
  ℕ, ◌≡◌, refl, ap, ◌∙◌, inl, inr, Bool, true, false, Bool-cases, Option, Option-cases, none, some,
  List, [], ◌∷◌, get_elem?, arith,
}
use finam_tradebot.Core.Types.{Timestamp, OrderUpdate}
use finam_tradebot.Double.{Double}
use finam_tradebot.Risk.RiskManager.{RiskManager, Reply}
use finam_tradebot.Order.OrderClient.{PlaceRequest, PlaceReply, StreamOrder, on_stream_order}
use finam_tradebot.Strategy.Runner.{Runner, Env, on_update}
use finam_tradebot.Strategy.Runner.Queue.{System}
use finam_tradebot.Strategy.Runner.Task.{Task, idle, checking, tripping, sending}
use finam_tradebot.Prelude.Text.{Text}
use finam_tradebot.Main.{broadcast}
use finam_tradebot.Main.Executor.{live, Executor-cases}
use finam_tradebot.Main.Bot.{
  Bot, Step, market, bar, watch, round, stream_order, account_poll, runners_of, call_back, deliver,
  deliver_all, submit_one, trip, begin_round, go_on, round_of, alter, read_order, step,
}

abbrev pub is_some : {A : Type 0} → Option A → Bool
is_some none = false
is_some (some x) = true

module _ {W : Type 0} ⦃d : Double W⦄ where
  on_update-is_some :
      (upd : OrderUpdate W) (r : Runner W) → is_some (on_update upd r).0.risk ≡ is_some r.risk
  unfolding on_update
  on_update-is_some upd r = ground arith

  broadcast-is_some :
      (upd : OrderUpdate W) (rs : List (Runner W)) (risk : Option (RiskManager W))
      → is_some (broadcast upd rs risk).0 ≡ is_some risk
  unfolding broadcast
  broadcast-is_some upd [] risk = refl
  broadcast-is_some upd (r ∷ rs) risk =
      broadcast-is_some upd rs (on_update upd (record r { risk = risk })).0.risk
      ∙ on_update-is_some upd (record r { risk = risk })

  deliver-is_some :
      (upd : OrderUpdate W) (b : Bot W) → is_some (deliver upd b).risk ≡ is_some b.risk
  unfolding deliver call_back
  deliver-is_some upd b = elim (Bool-cases b.wired) [
    | inl wired ↦ rw wired (broadcast-is_some upd (runners_of b.systems) b.risk)
    | inr deaf ↦ rw deaf
  ]

  deliver_all-is_some :
      (upds : List (OrderUpdate W)) (b : Bot W) → is_some (deliver_all upds b).risk ≡ is_some b.risk
  unfolding deliver_all
  deliver_all-is_some [] b = refl
  deliver_all-is_some (upd ∷ upds) b =
      deliver_all-is_some upds (deliver upd b) ∙ deliver-is_some upd b

  trip-is_some :
      (reason : Text) (risk : Option (RiskManager W)) → is_some (trip reason risk) ≡ is_some risk
  unfolding trip
  trip-is_some reason none = refl
  trip-is_some reason (some m) = refl

  begin_round-risk : (i : ℕ) (env : Env W) (b : Bot W) → (begin_round i env b).risk ≡ b.risk
  unfolding begin_round
  begin_round-risk i env b = elim (Option-cases (get_elem? b.systems i)) [
    | inl nobody ↦ rw (nobody, begin_round)
    | inr (s, here) ↦ rw (here, begin_round)
  ]

  go_on-is_some :
      (t : Task W) (i : ℕ) (env : Env W) (place : PlaceRequest → Reply PlaceReply) (b : Bot W)
      → is_some (go_on t i env place b).risk ≡ is_some b.risk
  unfolding go_on submit_one
  go_on-is_some idle i env place b = ap is_some (begin_round-risk i env b)
  go_on-is_some (checking c req) i env place b = refl
  go_on-is_some (tripping reason) i env place b = trip-is_some reason b.risk
  go_on-is_some (sending req) i env place b = deliver_all-is_some _ _

  alter-is_some :
      (i : ℕ) (f : System W → System W) (b : Bot W) → is_some (alter i f b).risk ≡ is_some b.risk
  unfolding alter
  alter-is_some i f b = elim (Option-cases (get_elem? b.systems i)) [
    | inl nobody ↦ rw (nobody, alter)
    | inr (s, here) ↦ rw (here, alter)
  ]

  read_order-is_some :
      (o : StreamOrder) (now : Timestamp) (b : Bot W)
      → is_some (read_order o now b).risk ≡ is_some b.risk
  unfolding read_order
  read_order-is_some o now b = elim (Executor-cases b.executor) [
    | inl (c, alive) ↦
        let (c', upd) = on_stream_order o now c in
        rw (alive, read_order) (deliver-is_some upd (record b { executor = live c' }))
    | inr (x, dry) ↦ rw (dry, read_order)
  ]

  -- No step takes the risk manager away.
  pub step-is_some : (x : Step W) (b : Bot W) → is_some (step x b).risk ≡ is_some b.risk
  unfolding step round_of
  step-is_some (market i e) b = alter-is_some i _ b
  step-is_some (bar i x) b = alter-is_some i _ b
  step-is_some (watch i now) b = alter-is_some i _ b
  step-is_some (round i env place) b = go_on-is_some (b.tasks i) i env place b
  step-is_some (stream_order o now) b = read_order-is_some o now b
  step-is_some (account_poll a now) b = elim (Option-cases b.risk) [
    | inl nothing ↦ rw (nothing, step)
    | inr (m, has) ↦ rw (has, step)
  ]
