-- ===== src/Main/Bot/Breaker/Steps.antt =====
-- No step of the threads of src/main.cpp resets the circuit breaker.

use finam_tradebot.Prelude.{ℕ, ◌∙◌, inl, inr, Option-cases, List, [], ◌∷◌, get_elem?, Bool-cases}
use finam_tradebot.Prelude.Text.{Text}
use finam_tradebot.Core.Types.{Timestamp, OrderUpdate}
use finam_tradebot.Double.{Double}
use finam_tradebot.Risk.RiskManager.{Reply, AccountReply, refresh_account}
use finam_tradebot.Order.OrderClient.{PlaceRequest, PlaceReply, StreamOrder, on_stream_order}
use finam_tradebot.Strategy.Runner.{Env}
use finam_tradebot.Strategy.Runner.Queue.{System}
use finam_tradebot.Strategy.Runner.Task.{Task, idle, checking, tripping, sending}
use finam_tradebot.Main.Executor.{live, Executor-cases}
use finam_tradebot.Main.Bot.{
  Bot, Step, market, bar, watch, round, stream_order, account_poll, runners_of, call_back, deliver,
  deliver_all, submit_one, begin_round, go_on, round_of, alter, read_order, step,
}
use finam_tradebot.Main.Bot.Breaker.Parts.{
  Tripped, refresh-tripped, broadcast-Tripped, trip-Tripped,
}

module _ {W : Type 0} ⦃d : Double W⦄ where
  deliver-Tripped :
      (reason : Text) (upd : OrderUpdate W) (b : Bot W)
      → Tripped reason b.risk
      → Tripped reason (deliver upd b).risk
  unfolding deliver call_back
  deliver-Tripped reason upd b trip = elim (Bool-cases b.wired) [
    | inl wired ↦ rw wired (broadcast-Tripped reason upd (runners_of b.systems) b.risk trip)
    | inr deaf ↦ rw deaf trip
  ]

  deliver_all-Tripped :
      (reason : Text) (upds : List (OrderUpdate W)) (b : Bot W)
      → Tripped reason b.risk
      → Tripped reason (deliver_all upds b).risk
  unfolding deliver_all
  deliver_all-Tripped reason [] b trip = trip
  deliver_all-Tripped reason (upd ∷ upds) b trip =
      deliver_all-Tripped reason upds (deliver upd b) (deliver-Tripped reason upd b trip)

  begin_round-Tripped :
      (reason : Text) (i : ℕ) (env : Env W) (b : Bot W)
      → Tripped reason b.risk
      → Tripped reason (begin_round i env b).risk
  unfolding begin_round
  begin_round-Tripped reason i env b trip = elim (Option-cases (get_elem? b.systems i)) [
    | inl nobody ↦ rw (nobody, begin_round) trip
    | inr (s, here) ↦ rw (here, begin_round) trip
  ]

  go_on-Tripped :
      (reason : Text) (t : Task W) (i : ℕ) (env : Env W) (place : PlaceRequest → Reply PlaceReply)
      → (b : Bot W) → Tripped reason b.risk
      → Tripped reason (go_on t i env place b).risk
  unfolding go_on submit_one
  go_on-Tripped reason idle i env place b trip = begin_round-Tripped reason i env b trip
  go_on-Tripped reason (checking c req) i env place b trip = trip
  go_on-Tripped reason (tripping why) i env place b trip = trip-Tripped reason why b.risk trip
  go_on-Tripped reason (sending req) i env place b trip = deliver_all-Tripped reason _ _ trip

  alter-Tripped :
      (reason : Text) (i : ℕ) (f : System W → System W) (b : Bot W)
      → Tripped reason b.risk
      → Tripped reason (alter i f b).risk
  unfolding alter
  alter-Tripped reason i f b trip = elim (Option-cases (get_elem? b.systems i)) [
    | inl nobody ↦ rw (nobody, alter) trip
    | inr (s, here) ↦ rw (here, alter) trip
  ]

  read_order-Tripped :
      (reason : Text) (o : StreamOrder) (now : Timestamp) (b : Bot W)
      → Tripped reason b.risk
      → Tripped reason (read_order o now b).risk
  unfolding read_order
  read_order-Tripped reason o now b trip = elim (Executor-cases b.executor) [
    | inl (c, live_) ↦
        let (c', upd) = on_stream_order o now c in
        rw (live_, read_order) (deliver-Tripped reason upd (record b { executor = live c' }) trip)
    | inr (x, dry) ↦ rw (dry, read_order) trip
  ]

  poll-Tripped :
      (reason : Text) (a : Reply AccountReply) (now : Timestamp) (b : Bot W)
      → Tripped reason b.risk
      → Tripped reason (step (account_poll a now) b).risk
  unfolding step
  poll-Tripped reason a now b (m, has, t, why) =
      let (t', why') = refresh-tripped a now m in
      ((refresh_account a now m).0, rw (has, step), t' ∙ t, why' ∙ why)

  -- No step resets the breaker.
  pub step-Tripped :
      (reason : Text) (x : Step W) (b : Bot W)
      → Tripped reason b.risk
      → Tripped reason (step x b).risk
  unfolding step round_of
  step-Tripped reason (market i e) b trip = alter-Tripped reason i _ b trip
  step-Tripped reason (bar i x) b trip = alter-Tripped reason i _ b trip
  step-Tripped reason (round i env place) b trip =
      go_on-Tripped reason (b.tasks i) i env place b trip
  step-Tripped reason (watch i now) b trip = alter-Tripped reason i _ b trip
  step-Tripped reason (stream_order o now) b trip = read_order-Tripped reason o now b trip
  step-Tripped reason (account_poll a now) b trip = poll-Tripped reason a now b trip
