-- ===== src/Main/Bot/Frame.antt =====
-- What no step of the parts that src/main.cpp joins changes: whether the callback is set, which kind
-- of executor there is, and how many runners there are.
use finam_tradebot.Prelude.{
  ℕ, ◌≡◌, refl, sym, ap, ◌∙◌, inl, inr, Bool-cases, Option, Option-cases, List, [], ◌∷◌, ◌++◌,
  length, length-set, get_elem?, arith,
}
use finam_tradebot.Core.Types.{Timestamp, OrderRequest, OrderUpdate}
use finam_tradebot.Double.{Double}
use finam_tradebot.Risk.RiskManager.{Reply}
use finam_tradebot.Order.OrderClient.{
  OrderClient, PlaceRequest, PlaceReply, StreamOrder, on_stream_order,
}
use finam_tradebot.Strategy.Runner.{Env, MdEvent}
use finam_tradebot.Strategy.Runner.Queue.{System}
use finam_tradebot.Strategy.Runner.Task.{Task, idle, checking, tripping, sending, put}
use finam_tradebot.Main.{DryRunExecutor, broadcast}
use finam_tradebot.Main.Executor.{Executor, live, dry_run, is_live, submit, Executor-cases}
use finam_tradebot.Main.Bot.{
  Bot, Step, market, bar, watch, round, stream_order, account_poll, push_all, runners_of, call_back,
  deliver, deliver_all, submit_one, take_event, begin_round, go_on, round_of, alter, read_order,
  step,
}

module _ {W : Type 0} ⦃d : Double W⦄ where
  pub record SameFrame (b b' : Bot W) : Type 0 where
    pub wired : b'.wired ≡ b.wired
    pub kind : is_live b'.executor ≡ is_live b.executor
    pub count : length b'.systems ≡ length b.systems

  same-SameFrame : (b : Bot W) → SameFrame b b
  same-SameFrame b = record { wired = refl; kind = refl; count = refl }

  then-SameFrame : (b b₁ b₂ : Bot W) → SameFrame b b₁ → SameFrame b₁ b₂ → SameFrame b b₂
  then-SameFrame b b₁ b₂ f g = record {
    wired = g.wired ∙ f.wired;
    kind = g.kind ∙ f.kind;
    count = g.count ∙ f.count;
  }

  is_live-submit :
      (place : PlaceRequest → Reply PlaceReply) (now : Timestamp) (req : OrderRequest W)
      → (x : Executor W) → is_live (submit place now req x).0 ≡ is_live x
  unfolding submit
  is_live-submit place now req (live c) = refl
  is_live-submit place now req (dry_run x) = refl

  length-push_all :
      (ps : List (Option (MdEvent W))) (ss : List (System W)) → length (push_all ps ss) ≡ length ss
  unfolding push_all
  length-push_all [] ss = refl
  length-push_all (p ∷ ps) [] = refl
  length-push_all (p ∷ ps) (s ∷ ss) = omega (arith, length-push_all ps ss)

  deliver-SameFrame : (upd : OrderUpdate W) (b : Bot W) → SameFrame b (deliver upd b)
  unfolding deliver call_back
  deliver-SameFrame upd b = elim (Bool-cases b.wired) [
    | inl wired ↦
        let count = length-push_all (broadcast upd (runners_of b.systems) b.risk).1 b.systems in
        record {
          wired = ground (arith, wired);
          kind = ground (arith, wired);
          count = ground (arith, wired, count);
        }
    | inr deaf ↦ record {
      wired = ground (arith, deaf);
      kind = ground (arith, deaf);
      count = ground (arith, deaf);
    }
  ]

  deliver_all-SameFrame :
      (upds : List (OrderUpdate W)) (b : Bot W) → SameFrame b (deliver_all upds b)
  unfolding deliver_all
  deliver_all-SameFrame [] b = same-SameFrame b
  deliver_all-SameFrame (upd ∷ upds) b =
      then-SameFrame b (deliver upd b) (deliver_all upds (deliver upd b)) (deliver-SameFrame upd b)
        (deliver_all-SameFrame upds (deliver upd b))

  submit_one-SameFrame :
      (place : PlaceRequest → Reply PlaceReply) (now : Timestamp) (req : OrderRequest W)
      → (b : Bot W) → SameFrame b (submit_one place now req b)
  unfolding submit_one
  submit_one-SameFrame place now req b =
      let (executor', _, upds) = submit place now req b.executor in
      let b₁ : Bot W = record b { executor = executor'; submitted = b.submitted ++ (req ∷ []) } in
      let sent : SameFrame b b₁ = record {
        wired = refl;
        kind = is_live-submit place now req b.executor;
        count = refl;
      } in
      then-SameFrame b b₁ (deliver_all upds b₁) sent (deliver_all-SameFrame upds b₁)

  begin_round-SameFrame : (i : ℕ) (env : Env W) (b : Bot W) → SameFrame b (begin_round i env b)
  unfolding begin_round
  begin_round-SameFrame i env b = elim (Option-cases (get_elem? b.systems i)) [
    | inl nobody ↦ rw (nobody, begin_round) (same-SameFrame b)
    | inr (s, here) ↦
        rw (here, begin_round)
          (record {
            wired = refl;
            kind = refl;
            count = length-set b.systems i (take_event env s).0;
          })
  ]

  go_on-SameFrame :
      (t : Task W) (i : ℕ) (env : Env W) (place : PlaceRequest → Reply PlaceReply) (b : Bot W)
      → SameFrame b (go_on t i env place b)
  unfolding go_on
  go_on-SameFrame idle i env place b = begin_round-SameFrame i env b
  go_on-SameFrame (checking c req) i env place b = record {
    wired = refl;
    kind = refl;
    count = refl;
  }
  go_on-SameFrame (tripping reason) i env place b = record {
    wired = refl;
    kind = refl;
    count = refl;
  }
  go_on-SameFrame (sending req) i env place b =
      let b' : Bot W = record b { tasks = put i idle b.tasks } in
      then-SameFrame b b' (submit_one place env.now req b')
        (record { wired = refl; kind = refl; count = refl })
        (submit_one-SameFrame place env.now req b')

  alter-SameFrame : (i : ℕ) (f : System W → System W) (b : Bot W) → SameFrame b (alter i f b)
  unfolding alter
  alter-SameFrame i f b = elim (Option-cases (get_elem? b.systems i)) [
    | inl nobody ↦ rw (nobody, alter) (same-SameFrame b)
    | inr (s, here) ↦
        rw (here, alter)
          (record { wired = refl; kind = refl; count = length-set b.systems i (f s) })
  ]

  read_order-live :
      (o : StreamOrder) (now : Timestamp) (b : Bot W) (c : OrderClient W)
      → b.executor ≡ live c
      → let (c', upd) = on_stream_order o now c in
        read_order o now b ≡ deliver upd (record b { executor = live c' })
  unfolding read_order
  read_order-live o now b c alive = rw (alive, read_order)

  read_order-dry :
      (o : StreamOrder) (now : Timestamp) (b : Bot W) (x : DryRunExecutor)
      → b.executor ≡ dry_run x
      → read_order o now b ≡ b
  unfolding read_order
  read_order-dry o now b x dry = ground (arith, dry)

  read_order-SameFrame :
      (o : StreamOrder) (now : Timestamp) (b : Bot W) → SameFrame b (read_order o now b)
  read_order-SameFrame o now b = elim (Executor-cases b.executor) [
    | inl (c, alive) ↦
        let (c', upd) = on_stream_order o now c in
        let b' : Bot W = record b { executor = live c' } in
        rw (read_order-live o now b c alive) (
          then-SameFrame b b' (deliver upd b')
            (record { wired = refl; kind = ap is_live (sym alive); count = refl })
            (deliver-SameFrame upd b'))
    | inr (x, dry) ↦ rw (read_order-dry o now b x dry) (same-SameFrame b)
  ]

  pub step-SameFrame : (x : Step W) (b : Bot W) → SameFrame b (step x b)
  unfolding step round_of
  step-SameFrame (market i e) b = alter-SameFrame i _ b
  step-SameFrame (bar i x) b = alter-SameFrame i _ b
  step-SameFrame (watch i now) b = alter-SameFrame i _ b
  step-SameFrame (round i env place) b = go_on-SameFrame (b.tasks i) i env place b
  step-SameFrame (stream_order o now) b = read_order-SameFrame o now b
  step-SameFrame (account_poll a now) b = record { wired = refl; kind = refl; count = refl }
