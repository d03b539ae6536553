-- ===== src/Main/Life/Reachable.antt =====
-- The states that the program of src/main.cpp reaches.
use finam_tradebot.Prelude.{
  ◌+◌, ◌<◌, ◌≡◌, ◌≢◌, refl, sym, ◌∙◌, ◌⊎◌, inl, inr, true, false, ◌||◌, List, [], ◌∷◌, length,
  length-append, arith,
}
use finam_tradebot.Double.{Double}
use finam_tradebot.Core.Types.{Timestamp}
use finam_tradebot.Order.OrderClient.{OrderClient, StreamOrder}
use finam_tradebot.Risk.RiskManager.{RiskManager}
use finam_tradebot.Strategy.Runner.{MdEvent}
use finam_tradebot.Main.{SymbolConfig, make_symbol_configs}
use finam_tradebot.Main.Executor.{Executor, live, is_live}
use finam_tradebot.Main.Bot.{Step, market, bar, watch, round, stream_order, account_poll, step}
use finam_tradebot.Main.Bot.Frame.{step-SameFrame}
use finam_tradebot.Main.Life.{
  Stage, making, serving, clearing, cleared, closed, Life, is_running, dangles, launch, add_runner,
  Move, make_one, set_callback, turn, clear_runners, destroy_one, end_clear, shut_down, Reach,
  start, later,
}

module _ {W : Type 0} ⦃d : Double W⦄ where
  -- What holds at each stage.
  abbrev pub Fits : Stage W → Life W → Type 0
  Fits (making rest) l =
      (length l.bot.systems + length rest ≡ 5)
      × (l.gone ≡ 0)
      × (l.bot.wired ≡ false)
      × (l.dangling ≡ false)
  Fits serving l =
      (length l.bot.systems ≡ 5)
      × (l.gone ≡ 0)
      × (l.bot.wired ≡ is_live l.bot.executor)
      × (l.dangling ≡ false)
  Fits clearing l = (length l.bot.systems ≡ 5) × (l.bot.wired ≡ is_live l.bot.executor)
  Fits cleared l = (l.gone ≡ 5) × (l.bot.wired ≡ is_live l.bot.executor)
  Fits closed l = (l.gone ≡ 5) × (l.bot.wired ≡ is_live l.bot.executor)

  abbrev pub turned : Step W → Life W → Life W
  turned x l = record l { bot = step x l.bot; dangling = l.dangling || dangles x l }

  none_dangles : (x : Step W) (l : Life W) → l.gone ≡ 0 → dangles x l ≡ false
  unfolding dangles
  none_dangles (market i e) l none_ = ground arith
  none_dangles (bar i x) l none_ = ground arith
  none_dangles (watch i now) l none_ = refl
  none_dangles (round i env place) l none_ = ground arith
  none_dangles (stream_order o now) l none_ = ground arith
  none_dangles (account_poll a now) l none_ = refl

  turn-Fits : (x : Step W) (at_ : Stage W) (l : Life W) → Fits at_ l → Fits at_ (turned x l)
  turn-Fits x (making rest) l (left, none_, deaf, fine) =
      let f = step-SameFrame x l.bot in
      (
        omega (arith, f.count, left),
        none_,
        f.wired ∙ deaf,
        ground (arith, fine, none_dangles x l none_),
      )
  turn-Fits x serving l (five, none_, set_, fine) =
      let f = step-SameFrame x l.bot in
      (
        f.count ∙ five,
        none_,
        f.wired ∙ set_ ∙ sym f.kind,
        ground (arith, fine, none_dangles x l none_),
      )
  turn-Fits x clearing l (five, set_) =
      let f = step-SameFrame x l.bot in (f.count ∙ five, f.wired ∙ set_ ∙ sym f.kind)
  turn-Fits x cleared l (all, set_) =
      let f = step-SameFrame x l.bot in (all, f.wired ∙ set_ ∙ sym f.kind)
  turn-Fits x closed l (all, set_) =
      let f = step-SameFrame x l.bot in (all, f.wired ∙ set_ ∙ sym f.kind)

  Move-Fits :
      {default : MdEvent W} {l l' : Life W} → Move default l l' → Fits l.stage l → Fits l'.stage l'
  unfolding add_runner
  Move-Fits {l} (make_one env risk sc rest at_ has) fit =
      let (left, none_, deaf, fine) : Fits (making (sc ∷ rest)) l = rw at_ at fit in
      (omega (arith, left, length-append l.bot.systems (_ ∷ [])), none_, deaf, fine)
  Move-Fits {l} (set_callback at_) fit =
      let (left, none_, deaf, fine) : Fits (making []) l = rw at_ at fit in
      (omega (arith, left), none_, refl, fine)
  Move-Fits {l} (turn x up runs) fit = turn-Fits x l.stage l fit
  Move-Fits {l} (clear_runners at_) fit =
      let (five, none_, set_, fine) : Fits serving l = rw at_ at fit in (five, set_)
  Move-Fits {l} (destroy_one at_ there idle_) fit =
      let (five, set_) : Fits clearing l = rw at_ at fit in rw at_ (five, set_)
  Move-Fits {l} (end_clear at_ all) fit =
      let (five, set_) : Fits clearing l = rw at_ at fit in (all ∙ five, set_)
  Move-Fits {l} (shut_down at_) fit =
      let (all, set_) : Fits cleared l = rw at_ at fit in (all, set_)

  pub Reach-Fits :
      {default : MdEvent W} {executor : Executor W} {risk : RiskManager W} {l : Life W}
      → Reach default executor risk l
      → Fits l.stage l
  unfolding launch make_symbol_configs
  Reach-Fits start = (refl, refl, refl, refl)
  Reach-Fits (later r move) = Move-Fits move (Reach-Fits r)

  Fits-unharmed :
      (at_ : Stage W) (l : Life W)
      → Fits at_ l
      → (at_ ≡ serving) ⊎ ((rest : List (SymbolConfig W)) × (at_ ≡ making rest))
      → l.dangling ≡ false
  Fits-unharmed (making rest) l fit before = fit.3
  Fits-unharmed serving l fit before = fit.3
  Fits-unharmed clearing l fit (inl h) = absurd (cc)
  Fits-unharmed clearing l fit (inr (rest, h)) = absurd (cc)
  Fits-unharmed cleared l fit (inl h) = absurd (cc)
  Fits-unharmed cleared l fit (inr (rest, h)) = absurd (cc)
  Fits-unharmed closed l fit (inl h) = absurd (cc)
  Fits-unharmed closed l fit (inr (rest, h)) = absurd (cc)

  -- Whatever the threads do in whatever order, no callback is called on a runner that is destroyed
  -- before main begins to clear the runners.
  pub Reach-unharmed :
      {default : MdEvent W} {executor : Executor W} {risk : RiskManager W} {l : Life W}
      → Reach default executor risk l
      → (l.stage ≡ serving) ⊎ ((rest : List (SymbolConfig W)) × (l.stage ≡ making rest))
      → l.dangling ≡ false
  Reach-unharmed {l} r before = Fits-unharmed l.stage l (Reach-Fits r) before

  Move-is_live :
      {default : MdEvent W} {l l' : Life W}
      → Move default l l'
      → is_live l'.bot.executor ≡ is_live l.bot.executor
  unfolding add_runner
  Move-is_live (make_one env risk sc rest at_ has) = refl
  Move-is_live (set_callback at_) = refl
  Move-is_live {l} (turn x up runs) = (step-SameFrame x l.bot).kind
  Move-is_live (clear_runners at_) = refl
  Move-is_live (destroy_one at_ there idle_) = refl
  Move-is_live (end_clear at_ all) = refl
  Move-is_live (shut_down at_) = refl

  pub Reach-is_live :
      {default : MdEvent W} {executor : Executor W} {risk : RiskManager W} {l : Life W}
      → Reach default executor risk l
      → is_live l.bot.executor ≡ is_live executor
  unfolding launch
  Reach-is_live start = refl
  Reach-is_live (later r move) = Move-is_live move ∙ Reach-is_live r

  -- With the order client, as soon as a runner is destroyed, the callback is set.
  gone-wired :
      (at_ : Stage W) (l : Life W) → Fits at_ l → 0 < l.gone → l.bot.wired ≡ is_live l.bot.executor
  gone-wired (making rest) l (left, none_, deaf, fine) some_ = absurd (omega (arith, none_, some_))
  gone-wired serving l (five, none_, set_, fine) some_ = set_
  gone-wired clearing l (five, set_) some_ = set_
  gone-wired cleared l (all, set_) some_ = set_
  gone-wired closed l (all, set_) some_ = set_

  -- With the order client, from the moment at which main has destroyed the first runner until it has
  -- shut the order client down, every order that the stream brings can still be handled, and handling
  -- it calls a runner that is destroyed.
  pub late_order_dangles :
      {default : MdEvent W} {c : OrderClient W} {risk : RiskManager W} {l : Life W}
      → Reach default (live c) risk l
      → 0 < l.gone
      → l.stage ≢ closed
      → (o : StreamOrder) (now : Timestamp)
      → Move default l (turned (stream_order o now) l)
        × (dangles (stream_order o now) l ≡ true)
        × ((turned (stream_order o now) l).dangling ≡ true)
  unfolding dangles is_running
  late_order_dangles {l} r some_ up o now =
      let alive = Reach-is_live r in
      let set_ = gone-wired l.stage l (Reach-Fits r) some_ in
      (
        turn (stream_order o now) up refl,
        ground (arith, some_, set_, alive),
        ground (arith, some_, set_, alive),
      )
