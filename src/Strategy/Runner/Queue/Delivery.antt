-- ===== src/Strategy/Runner/Queue/Delivery.antt =====
-- What the queue of src/strategy/strategy_runner.hpp hands to the strategy.
use finam_tradebot.Prelude.{◌≡◌, refl, ap, ◌∙◌, sym, none, some, List, [], ◌∷◌, ◌++◌}
use mathlib.Core.List.{append-nil, append_assoc}
use finam_tradebot.Core.SpscQueue
use finam_tradebot.Core.SpscQueue.{SpscQueue, push, pop}
use finam_tradebot.Core.SpscQueue.Window.{contents}
use finam_tradebot.Core.SpscQueue.Ring.{
  IsRing, make-IsRing, push-IsRing, pop-IsRing, push_lem, pop_lem, fifo_push, fifo_pop,
}
use finam_tradebot.Double.{Double}
use finam_tradebot.Strategy.Runner.{Runner, MdEvent, Env, dispatch, drain}
use finam_tradebot.Strategy.Runner.Queue.{Action, incoming, drain_round, System, make, act, act_all}

module _ {W : Type 0} ⦃d : Double W⦄ where
  -- The events that a queue with room for 1023 hands over, each with what is read meanwhile.
  abbrev pub delivered : List (Action W) → List (MdEvent W) → List (Env W × MdEvent W)
  delivered [] waiting = []
  delivered (incoming e ∷ acts) waiting = delivered acts (fifo_push 1023 e waiting).0
  delivered (drain_round env ∷ acts) [] = delivered acts []
  delivered (drain_round env ∷ acts) (e ∷ waiting) = (env, e) ∷ delivered acts waiting

  -- The runner and the orders are those of a drain over a list of events.
  abbrev Drains : System W → System W → List (Env W × MdEvent W) → Type 0
  Drains s t es = (t.runner ≡ (drain es s.runner).0) × (t.sent ≡ s.sent ++ (drain es s.runner).1)

  pub act-none :
      (env : Env W) (s : System W)
      → (pop s.queue).1 ≡ none
      → act (drain_round env) s ≡ record s { queue = (pop s.queue).0 }
  unfolding act
  act-none env s nothing = rw (nothing, act)

  pub act-some :
      (env : Env W) (e : MdEvent W) (s : System W)
      → (pop s.queue).1 ≡ some e
      → act (drain_round env) s ≡ record {
        queue = (pop s.queue).0;
        runner = (dispatch env e s.runner).0;
        sent = s.sent ++ (dispatch env e s.runner).1;
      }
  unfolding act
  act-some env e s something = rw (something, act)

  pub act-incoming :
      (e : MdEvent W) (s : System W) → act (incoming e) s ≡ record s { queue = (push e s.queue).0 }
  unfolding act
  act-incoming e s = refl

  act_all-Drains :
      (acts : List (Action W)) (s : System W) (waiting : List (MdEvent W))
      → IsRing 10 s.queue
      → contents s.queue ≡ waiting
      → Drains s (act_all acts s) (delivered acts waiting)
  unfolding act_all drain
  act_all-Drains [] s waiting ring same = (refl, sym (append-nil s.sent))
  act_all-Drains (incoming e ∷ acts) s waiting ring same =
      let held = ap (λ p. p.0) (push_lem 10 e s.queue ring) in
      rw (act_all, act-incoming e s)
        (act_all-Drains acts (record s { queue = (push e s.queue).0 }) (fifo_push 1023 e waiting).0
          (push-IsRing 10 e s.queue ring) (held ∙ ap (λ w. (fifo_push 1023 e w).0) same))
  act_all-Drains (drain_round env ∷ acts) s [] ring same =
      let popped = pop_lem 10 s.queue ring ∙ ap fifo_pop same in
      rw (act_all, act-none env s (ap (λ p. p.1) popped))
        (act_all-Drains acts (record s { queue = (pop s.queue).0 }) [] (pop-IsRing 10 s.queue ring)
          (ap (λ p. p.0) popped))
  act_all-Drains (drain_round env ∷ acts) s (e ∷ waiting) ring same =
      let popped = pop_lem 10 s.queue ring ∙ ap fifo_pop same in
      let (runner, sent) = dispatch env e s.runner in
      let next : System W = record {
        queue = (pop s.queue).0;
        runner = runner;
        sent = s.sent ++ sent;
      } in
      let (runners, orders) =
        act_all-Drains acts next waiting (pop-IsRing 10 s.queue ring) (ap (λ p. p.0) popped) in
      rw (act_all, act-some env e s (ap (λ p. p.1) popped))
        (runners, orders ∙ append_assoc s.sent sent (drain (delivered acts waiting) runner).1)

  -- However the pushes and the rounds of the strategy thread are mixed, one at a time, the runner and
  -- the orders that it sends are those of a drain over a list of events: the events that came in while
  -- fewer than 1023 were waiting, once each, in the order of their arrival.
  pub act_all-drain :
      (default : MdEvent W) (acts : List (Action W)) (r : Runner W)
      → (let s = act_all acts (make default r) in
          let (r', sent) = drain (delivered acts []) r in (s.runner ≡ r') × (s.sent ≡ sent))
  unfolding make SpscQueue.make
  act_all-drain default acts r =
      act_all-Drains acts (make default r) [] (make-IsRing 10 default) refl
