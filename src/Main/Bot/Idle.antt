-- ===== src/Main/Bot/Idle.antt =====
-- A runner with its queue, src/strategy/strategy_runner.hpp, that holds no position and is told of no
-- order.
use finam_tradebot.Prelude.{
  ℕ, zero, suc, ◌≡◌, sym, ap, ◌∙◌, ◌⊎◌, inl, inr, Bool-cases, Option-cases, none, some, List, [],
  ◌∷◌, get_elem?, set, arith,
}
use finam_tradebot.Core.SpscQueue.{pop}
use finam_tradebot.Core.SpscQueue.Held.{AllHeld, push-AllHeld, pop-AllHeld, popped-AllHeld}
use finam_tradebot.Core.Types.{Timestamp, Symbol, OrderRequest}
use finam_tradebot.Core.Contract.{nearest_contract}
use finam_tradebot.Prelude.Text.{text_eq}
use finam_tradebot.Double.{Double}
use finam_tradebot.Strategy.Runner.{Runner, Env, MdEvent, rollover, check_rollover}
use finam_tradebot.Strategy.Runner.Flat.{IsNews, IsFlat, dispatch-IsFlat}
use finam_tradebot.Strategy.Runner.Position.{strategy-handle_signal}
use finam_tradebot.Strategy.Runner.Task.{decide, dispatch-decide}
use finam_tradebot.Strategy.Confluence.{Confluence}
use finam_tradebot.Strategy.Runner.Queue.{System, incoming, act}
use finam_tradebot.Strategy.Runner.Queue.Delivery.{act-incoming}
use finam_tradebot.Main.Bot.{
  Feed, book_feed, trade_feed, quote_feed, event_of, push_event, take_event,
}

module _ {W : Type 0} ⦃d : Double W⦄ where
  -- A runner that holds nothing, and is told of nothing.
  abbrev pub IsIdle : System W → Type 0
  IsIdle s = IsFlat s.runner.strategy × AllHeld IsNews s.queue

  abbrev pub AllIdle : List (System W) → Type 0
  AllIdle [] = Unit
  AllIdle (s ∷ ss) = IsIdle s × AllIdle ss

  pub set-AllIdle :
      (ss : List (System W)) (i : ℕ) (s : System W) → IsIdle s → AllIdle ss → AllIdle (set ss i s)
  set-AllIdle [] i s idle all = tt
  set-AllIdle (x ∷ ss) zero s idle all = (idle, all.1)
  set-AllIdle (x ∷ ss) (suc i) s idle all = (all.0, set-AllIdle ss i s idle all.1)

  pub get_elem?-IsIdle :
      (ss : List (System W)) (i : ℕ) (s : System W)
      → get_elem? ss i ≡ some s
      → AllIdle ss
      → IsIdle s
  get_elem?-IsIdle [] i s there all = absurd (cc)
  get_elem?-IsIdle (x ∷ ss) zero s there all = ground (arith, all.0)
  get_elem?-IsIdle (x ∷ ss) (suc i) s there all = get_elem?-IsIdle ss i s there all.1

  pub push_event-IsIdle :
      (e : MdEvent W) (s : System W) → IsNews e → IsIdle s → IsIdle (act (incoming e) s)
  push_event-IsIdle e s new (flat, clean) =
      rw (act-incoming e s) (flat, push-AllHeld IsNews e s.queue new clean)

  decide-IsFlat :
      (env : Env W) (e : MdEvent W) (r : Runner W)
      → IsNews e
      → IsFlat r.strategy
      → IsFlat (decide env e r).0.strategy
  decide-IsFlat env e r new flat =
      let (r', sig) = decide env e r in
      ap (λ (s : Confluence W). s.position) (sym (strategy-handle_signal env sig r'))
      ∙ ap (λ (out : Runner W × List (OrderRequest W)). out.0.strategy.position)
          (sym (dispatch-decide env e r))
      ∙ dispatch-IsFlat env e r new flat

  pub take_event-IsIdle : (env : Env W) (s : System W) → IsIdle s → IsIdle (take_event env s).0
  unfolding take_event
  take_event-IsIdle env s (flat, clean) = elim (Option-cases (pop s.queue).1) [
    | inl nothing ↦ rw (nothing, take_event) (flat, pop-AllHeld IsNews s.queue clean)
    | inr (e, something) ↦
        let new = popped-AllHeld IsNews s.queue e something clean in
        rw (something, take_event)
          (decide-IsFlat env e s.runner new flat, pop-AllHeld IsNews s.queue clean)
  ]

  pub event_of-IsNews : (e : Feed W) → IsNews (event_of e)
  event_of-IsNews (book_feed e) = tt
  event_of-IsNews (trade_feed e) = tt
  event_of-IsNews (quote_feed q) = tt

  check_rollover-cases :
      (now : Timestamp) (r : Runner W)
      → (check_rollover now r ≡ none)
        ⊎ ((new : Symbol) × (check_rollover now r ≡ some (rollover new)))
  unfolding check_rollover
  check_rollover-cases now r =
      let next = nearest_contract r.base_ticker r.rollover_days now in
      elim (Bool-cases (text_eq next.security_code r.active_symbol.security_code)) [
        | inl same ↦ inl (rw same)
        | inr other ↦ inr (next, rw other)
      ]

  pub watch-IsIdle :
      (now : Timestamp) (s : System W)
      → IsIdle s
      → IsIdle (push_event (check_rollover now s.runner) s)
  unfolding push_event
  watch-IsIdle now s idle = elim (check_rollover-cases now s.runner) [
    | inl same ↦ rw (same, push_event) idle
    | inr (new, other) ↦ rw (other, push_event) (push_event-IsIdle (rollover new) s tt idle)
  ]
