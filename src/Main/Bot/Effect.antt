-- ===== src/Main/Bot/Effect.antt =====
-- What a strategy thread of src/main.cpp does at a time to the tasks of the threads and to the orders
-- that have been submitted.
use finam_tradebot.Prelude.{
  ℕ, ◌≡◌, refl, ◌∙◌, inl, inr, Bool-cases, Option-cases, some, List, [], ◌∷◌, ◌++◌, get_elem?,
}
use finam_tradebot.Core.Types.{Timestamp, OrderRequest, OrderUpdate}
use finam_tradebot.Double.{Double}
use finam_tradebot.Risk.RiskManager.{Reply}
use finam_tradebot.Order.OrderClient.{PlaceRequest, PlaceReply, StreamOrder, on_stream_order}
use finam_tradebot.Strategy.Runner.{Env}
use finam_tradebot.Strategy.Runner.Queue.{System}
use finam_tradebot.Strategy.Runner.Task.{
  Task, Check, idle, checking, tripping, sending, ask, task_of, after_sub_check, put,
}
use finam_tradebot.Main.Executor.{live, Executor-cases}
use finam_tradebot.Main.Bot.{
  Bot, Step, market, bar, watch, round, stream_order, account_poll, call_back, deliver, deliver_all,
  submit_one, take_event, begin_round, go_on, round_of, alter, read_order, step,
}

module _ {W : Type 0} ⦃d : Double W⦄ where
  abbrev pub Untouched : Bot W → Bot W → Type 0
  Untouched b b' = (b'.tasks ≡ b.tasks) × (b'.submitted ≡ b.submitted)

  -- The thread of runner `i`.
  pub data Effect (i : ℕ) (env : Env W) (b b' : Bot W) : Type 0 where
    stays : Untouched b b' → Effect i env b b'
    begins :
        (s : System W)
        → get_elem? b.systems i ≡ some s
        → b.tasks i ≡ idle
        → b'.tasks ≡ put i (task_of env.account_id (take_event env s).1) b.tasks
        → b'.submitted ≡ b.submitted
        → Effect i env b b'
    checks :
        (c : Check) (req : OrderRequest W)
        → b.tasks i ≡ checking c req
        → b'.tasks ≡ put i (after_sub_check c req (ask c env req b.risk)) b.tasks
        → b'.submitted ≡ b.submitted
        → Effect i env b b'
    trips : b'.tasks ≡ put i idle b.tasks → b'.submitted ≡ b.submitted → Effect i env b b'
    sends :
        (req : OrderRequest W)
        → b.tasks i ≡ sending req
        → b'.tasks ≡ put i idle b.tasks
        → b'.submitted ≡ b.submitted ++ (req ∷ [])
        → Effect i env b b'

  deliver-Untouched : (upd : OrderUpdate W) (b : Bot W) → Untouched b (deliver upd b)
  unfolding deliver call_back
  deliver-Untouched upd b = elim (Bool-cases b.wired) [
    | inl wired ↦ rw wired (refl, refl)
    | inr deaf ↦ rw deaf (refl, refl)
  ]

  deliver_all-Untouched :
      (upds : List (OrderUpdate W)) (b : Bot W) → Untouched b (deliver_all upds b)
  unfolding deliver_all
  deliver_all-Untouched [] b = (refl, refl)
  deliver_all-Untouched (upd ∷ upds) b =
      let (t₁, s₁) = deliver-Untouched upd b in
      let (t₂, s₂) = deliver_all-Untouched upds (deliver upd b) in (t₂ ∙ t₁, s₂ ∙ s₁)

  alter-Untouched : (i : ℕ) (f : System W → System W) (b : Bot W) → Untouched b (alter i f b)
  unfolding alter
  alter-Untouched i f b = elim (Option-cases (get_elem? b.systems i)) [
    | inl nobody ↦ rw (nobody, alter) (refl, refl)
    | inr (s, here) ↦ rw (here, alter) (refl, refl)
  ]

  read_order-Untouched :
      (o : StreamOrder) (now : Timestamp) (b : Bot W) → Untouched b (read_order o now b)
  unfolding read_order
  read_order-Untouched o now b = elim (Executor-cases b.executor) [
    | inl (c, alive) ↦
        let (c', upd) = on_stream_order o now c in
        rw (alive, read_order) (deliver-Untouched upd (record b { executor = live c' }))
    | inr (x, dry) ↦ rw (dry, read_order) (refl, refl)
  ]

  begin_round-Effect :
      (i : ℕ) (env : Env W) (b : Bot W) → b.tasks i ≡ idle → Effect i env b (begin_round i env b)
  unfolding begin_round
  begin_round-Effect i env b free = elim (Option-cases (get_elem? b.systems i)) [
    | inl nobody ↦ stays (rw (nobody, begin_round) (refl, refl))
    | inr (s, here) ↦ begins s here free (rw (here, begin_round)) (rw (here, begin_round))
  ]

  go_on-Effect :
      (t : Task W) (i : ℕ) (env : Env W) (place : PlaceRequest → Reply PlaceReply) (b : Bot W)
      → b.tasks i ≡ t
      → Effect i env b (go_on t i env place b)
  unfolding go_on submit_one
  go_on-Effect idle i env place b at_ = begin_round-Effect i env b at_
  go_on-Effect (checking c req) i env place b at_ = checks c req at_ refl refl
  go_on-Effect (tripping reason) i env place b at_ = trips refl refl
  go_on-Effect (sending req) i env place b at_ =
      let (t, s) = deliver_all-Untouched _ _ in sends req at_ t s

  -- What a step may do to the tasks and to the orders: only a strategy thread changes them.
  abbrev pub Changes : Step W → Bot W → Bot W → Type 0
  Changes (round i env place) b b' = Effect i env b b'
  Changes (market i e) b b' = Untouched b b'
  Changes (bar i x) b b' = Untouched b b'
  Changes (watch i now) b b' = Untouched b b'
  Changes (stream_order o now) b b' = Untouched b b'
  Changes (account_poll a now) b b' = Untouched b b'

  pub step-Changes : (x : Step W) (b : Bot W) → Changes x b (step x b)
  unfolding step round_of
  step-Changes (market i e) b = alter-Untouched i _ b
  step-Changes (bar i x) b = alter-Untouched i _ b
  step-Changes (watch i now) b = alter-Untouched i _ b
  step-Changes (round i env place) b = go_on-Effect (b.tasks i) i env place b refl
  step-Changes (stream_order o now) b = read_order-Untouched o now b
  step-Changes (account_poll a now) b = (refl, refl)
