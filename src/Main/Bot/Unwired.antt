-- ===== src/Main/Bot/Unwired.antt =====
-- The parts of src/main.cpp while the callback of the order client is not set: before main has set it,
-- and in a dry run, where it is never set.
use finam_tradebot.Prelude.{
  ℕ, ◌≡◌, refl, inl, inr, false, Option, Option-cases, none, some, List, [], ◌∷◌, ◌++◌, get_elem?,
  arith,
}
use finam_tradebot.Core.Types.{Timestamp, OrderRequest, OrderUpdate}
use finam_tradebot.Double.{Double}
use finam_tradebot.Risk.RiskManager.{
  RiskManager, Reply, reply, failure, AccountReply, refresh_account, trip_circuit_breaker,
}
use finam_tradebot.Order.OrderClient.{PlaceRequest, PlaceReply, StreamOrder, on_stream_order}
use finam_tradebot.Strategy.Runner.{Env}
use finam_tradebot.Strategy.Runner.Flat.{booked_of, on_subscribed_bar-IsFlat}
use finam_tradebot.Strategy.Runner.Queue.{System}
use finam_tradebot.Strategy.Runner.Task.{Task, idle, checking, tripping, sending, put}
use finam_tradebot.Prelude.Text.{Text}
use finam_tradebot.Main.Executor.{live, submit, Executor-cases}
use finam_tradebot.Main.Bot.{
  Bot, event_of, Step, market, bar, watch, round, stream_order, account_poll, deliver, deliver_all,
  submit_one, take_event, begin_round, trip, go_on, round_of, alter, read_order, step,
}
use finam_tradebot.Main.Bot.Idle.{
  IsIdle, AllIdle, set-AllIdle, get_elem?-IsIdle, push_event-IsIdle, take_event-IsIdle,
  event_of-IsNews, watch-IsIdle,
}

module _ {W : Type 0} ⦃d : Double W⦄ where
  -- The callback is still not set, the runners are idle, and nothing has been booked since.
  abbrev pub Idles : Bot W → Bot W → Type 0
  Idles b b' = (b'.wired ≡ false) × AllIdle b'.systems × (booked_of b'.risk ≡ booked_of b.risk)

  deliver-unwired : (upd : OrderUpdate W) (b : Bot W) → b.wired ≡ false → deliver upd b ≡ b
  unfolding deliver
  deliver-unwired upd b deaf = ground (arith, deaf)

  deliver_all-unwired :
      (upds : List (OrderUpdate W)) (b : Bot W) → b.wired ≡ false → deliver_all upds b ≡ b
  unfolding deliver_all
  deliver_all-unwired [] b deaf = refl
  deliver_all-unwired (upd ∷ upds) b deaf =
      rw (deliver-unwired upd b deaf) (deliver_all-unwired upds b deaf)

  submit_one-Idles :
      (place : PlaceRequest → Reply PlaceReply) (now : Timestamp) (req : OrderRequest W)
      → (b : Bot W) → b.wired ≡ false
      → AllIdle b.systems
      → Idles b (submit_one place now req b)
  unfolding submit_one
  submit_one-Idles place now req b deaf idle_ =
      let (executor', _, upds) = submit place now req b.executor in
      let b' : Bot W = record b { executor = executor'; submitted = b.submitted ++ (req ∷ []) } in
      rw (deliver_all-unwired upds b' deaf) (deaf, idle_, refl)

  begin_round-Idles :
      (i : ℕ) (env : Env W) (b : Bot W)
      → b.wired ≡ false
      → AllIdle b.systems
      → Idles b (begin_round i env b)
  unfolding begin_round
  begin_round-Idles i env b deaf idle_ = elim (Option-cases (get_elem? b.systems i)) [
    | inl nobody ↦ rw (nobody, begin_round) (deaf, idle_, refl)
    | inr (s, here) ↦
        let idle' = take_event-IsIdle env s (get_elem?-IsIdle b.systems i s here idle_) in
        rw (here, begin_round)
          (deaf, set-AllIdle b.systems i (take_event env s).0 idle' idle_, refl)
  ]

  trip-booked :
      (reason : Text) (risk : Option (RiskManager W))
      → booked_of (trip reason risk) ≡ booked_of risk
  unfolding trip trip_circuit_breaker
  trip-booked reason none = refl
  trip-booked reason (some m) = ground arith

  go_on-Idles :
      (t : Task W) (i : ℕ) (env : Env W) (place : PlaceRequest → Reply PlaceReply) (b : Bot W)
      → b.wired ≡ false
      → AllIdle b.systems
      → Idles b (go_on t i env place b)
  unfolding go_on
  go_on-Idles idle i env place b deaf idle_ = begin_round-Idles i env b deaf idle_
  go_on-Idles (checking c req) i env place b deaf idle_ = (deaf, idle_, refl)
  go_on-Idles (tripping reason) i env place b deaf idle_ = (deaf, idle_, trip-booked reason b.risk)
  go_on-Idles (sending req) i env place b deaf idle_ =
      submit_one-Idles place env.now req (record b { tasks = put i idle b.tasks }) deaf idle_

  alter-Idles :
      (i : ℕ) (f : System W → System W) (b : Bot W)
      → b.wired ≡ false
      → AllIdle b.systems
      → ((s : System W) → IsIdle s → IsIdle (f s))
      → Idles b (alter i f b)
  unfolding alter
  alter-Idles i f b deaf idle_ keep = elim (Option-cases (get_elem? b.systems i)) [
    | inl nobody ↦ rw (nobody, alter) (deaf, idle_, refl)
    | inr (s, here) ↦
        rw (here, alter)
          (
            deaf,
            set-AllIdle b.systems i (f s) (keep s (get_elem?-IsIdle b.systems i s here idle_))
                idle_,
            refl,
          )
  ]

  read_order-Idles :
      (o : StreamOrder) (now : Timestamp) (b : Bot W)
      → b.wired ≡ false
      → AllIdle b.systems
      → Idles b (read_order o now b)
  unfolding read_order
  read_order-Idles o now b deaf idle_ = elim (Executor-cases b.executor) [
    | inl (c, alive) ↦
        let (c', upd) = on_stream_order o now c in
        rw (alive, read_order, deliver-unwired upd (record b { executor = live c' }) deaf)
          (deaf, idle_, refl)
    | inr (x, dry) ↦ rw (dry, read_order) (deaf, idle_, refl)
  ]

  poll-booked :
      (a : Reply AccountReply) (now : Timestamp) (m : RiskManager W)
      → (refresh_account a now m).0.open_pos ≡ m.open_pos
  unfolding refresh_account
  poll-booked (reply a) now m = refl
  poll-booked (failure msg) now m = refl

  poll-Idles :
      (a : Reply AccountReply) (now : Timestamp) (b : Bot W)
      → b.wired ≡ false
      → AllIdle b.systems
      → Idles b (step (account_poll a now) b)
  unfolding step
  poll-Idles a now b deaf idle_ = elim (Option-cases b.risk) [
    | inl nothing ↦ (deaf, idle_, rw (nothing, step))
    | inr (m, has) ↦ (deaf, idle_, rw (has, step) (poll-booked a now m))
  ]

  pub step-Idles :
      (x : Step W) (b : Bot W) → b.wired ≡ false → AllIdle b.systems → Idles b (step x b)
  unfolding step round_of
  step-Idles (market i e) b deaf idle_ =
      alter-Idles i _ b deaf idle_ (λ s. push_event-IsIdle (event_of e) s (event_of-IsNews e))
  step-Idles (bar i x) b deaf idle_ =
      alter-Idles i _ b deaf idle_ (λ s p. (on_subscribed_bar-IsFlat x s.runner p.0, p.1))
  step-Idles (watch i now) b deaf idle_ = alter-Idles i _ b deaf idle_ (watch-IsIdle now)
  step-Idles (round i env place) b deaf idle_ = go_on-Idles (b.tasks i) i env place b deaf idle_
  step-Idles (stream_order o now) b deaf idle_ = read_order-Idles o now b deaf idle_
  step-Idles (account_poll a now) b deaf idle_ = poll-Idles a now b deaf idle_
