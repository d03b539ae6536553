-- ===== src/Main/Life/Asleep.antt =====
-- The program of src/main.cpp while the callback of the order client is not set.
use finam_tradebot.Prelude.{◌≡◌, refl, sym, ◌∙◌, ◌⊎◌, inl, inr, false, some, List, [], ◌∷◌, ◌++◌}
use finam_tradebot.Double.{Double}
use finam_tradebot.Core.SpscQueue.Held.{make-AllHeld}
use finam_tradebot.Risk.RiskManager.{RiskManager}
use finam_tradebot.Strategy.Confluence
use finam_tradebot.Strategy.Runner
use finam_tradebot.Strategy.Runner.{MdEvent, Env, queue_capacity}
use finam_tradebot.Strategy.Runner.Flat.{IsNews, IsFlat, booked_of, load_history-IsFlat}
use finam_tradebot.Strategy.Runner.Queue
use finam_tradebot.Strategy.Runner.Queue.{System}
use finam_tradebot.Main.{SymbolConfig, make_runner}
use finam_tradebot.Main.Executor.{Executor, is_live}
use finam_tradebot.Main.Bot.Frame.{step-SameFrame}
use finam_tradebot.Main.Bot.Idle.{IsIdle, AllIdle}
use finam_tradebot.Main.Bot.Unwired.{step-Idles}
use finam_tradebot.Main.Life.{
  Stage, making, serving, clearing, cleared, closed, Life, launch, add_runner, Move, make_one,
  set_callback, turn, clear_runners, destroy_one, end_clear, shut_down, Reach, start, later,
}
use finam_tradebot.Main.Life.Reachable.{Fits, Reach-Fits, Reach-is_live}

module _ {W : Type 0} ⦃d : Double W⦄ where
  append-AllIdle :
      (ss : List (System W)) (s : System W) → AllIdle ss → IsIdle s → AllIdle (ss ++ (s ∷ []))
  append-AllIdle [] s all idle = (idle, tt)
  append-AllIdle (x ∷ ss) s all idle = (all.0, append-AllIdle ss s all.1 idle)

  make_runner-IsFlat :
      (env : Env W) (risk : RiskManager W) (sc : SymbolConfig W)
      → IsFlat (make_runner env risk sc).strategy
  unfolding make_runner Runner.make Confluence.make
  make_runner-IsFlat env risk sc = load_history-IsFlat _ _ refl

  make-IsIdle :
      (default : MdEvent W) (env : Env W) (risk : RiskManager W) (sc : SymbolConfig W)
      → IsNews default
      → IsIdle (Queue.make default (make_runner env risk sc))
  unfolding Queue.make
  make-IsIdle default env risk sc new =
      (make_runner-IsFlat env risk sc, make-AllHeld IsNews queue_capacity default new)

  -- If the callback is not set, the runners are idle, and the positions are those of the start.
  abbrev Sleeps : RiskManager W → Life W → Type 0
  Sleeps risk l =
      l.bot.wired ≡ false → AllIdle l.bot.systems × (booked_of l.bot.risk ≡ booked_of (some risk))

  Move-Sleeps :
      {default : MdEvent W} {l l' : Life W}
      → (risk : RiskManager W) → IsNews default
      → Fits l.stage l
      → Move default l l'
      → Sleeps risk l
      → Sleeps risk l'
  unfolding add_runner
  Move-Sleeps {default} {l} risk new fit (make_one env m sc rest at_ has) sleeps deaf =
      let (idle, same) = sleeps deaf in
      (append-AllIdle l.bot.systems _ idle (make-IsIdle default env m sc new), same)
  Move-Sleeps {l} risk new fit (set_callback at_) sleeps deaf =
      let (left, none_, unset, fine) : Fits (making []) l = rw at_ at fit in sleeps unset
  Move-Sleeps {l} risk new fit (turn x up runs) sleeps deaf =
      let before = sym (step-SameFrame x l.bot).wired ∙ deaf in
      let (idle, same) = sleeps before in
      let (still, idle', same') = step-Idles x l.bot before idle in (idle', same' ∙ same)
  Move-Sleeps risk new fit (clear_runners at_) sleeps deaf = sleeps deaf
  Move-Sleeps risk new fit (destroy_one at_ there idle_) sleeps deaf = sleeps deaf
  Move-Sleeps risk new fit (end_clear at_ all) sleeps deaf = sleeps deaf
  Move-Sleeps risk new fit (shut_down at_) sleeps deaf = sleeps deaf

  Reach-Sleeps :
      {default : MdEvent W} {executor : Executor W} {risk : RiskManager W} {l : Life W}
      → IsNews default
      → Reach default executor risk l
      → Sleeps risk l
  unfolding launch
  Reach-Sleeps new start = λ deaf. (tt, refl)
  Reach-Sleeps {risk} new (later r move) =
      Move-Sleeps risk new (Reach-Fits r) move (Reach-Sleeps new r)

  Fits-unset :
      (at_ : Stage W) (l : Life W)
      → Fits at_ l
      → (is_live l.bot.executor ≡ false) ⊎ ((rest : List (SymbolConfig W)) × (at_ ≡ making rest))
      → l.bot.wired ≡ false
  Fits-unset (making rest) l (left, none_, unset, fine) why = unset
  Fits-unset serving l (five, none_, set_, fine) (inl dry) = set_ ∙ dry
  Fits-unset clearing l (five, set_) (inl dry) = set_ ∙ dry
  Fits-unset cleared l (all, set_) (inl dry) = set_ ∙ dry
  Fits-unset closed l (all, set_) (inl dry) = set_ ∙ dry
  Fits-unset clearing l fit (inr (rest, at_)) = absurd (cc)
  Fits-unset serving l fit (inr (rest, at_)) = absurd (cc)
  Fits-unset cleared l fit (inr (rest, at_)) = absurd (cc)
  Fits-unset closed l fit (inr (rest, at_)) = absurd (cc)

  -- As long as main is making runners, and at any time in a dry run: whatever the threads do in
  -- whatever order, orders that are sent and filled included, no strategy has a position, no queue
  -- holds an update of an order, and the positions that the risk manager has booked are those it had
  -- at the start. The buffers of the queues begin with an event that is no update.
  pub Reach-asleep :
      {default : MdEvent W} {executor : Executor W} {risk : RiskManager W} {l : Life W}
      → IsNews default
      → Reach default executor risk l
      → (is_live executor ≡ false) ⊎ ((rest : List (SymbolConfig W)) × (l.stage ≡ making rest))
      → AllIdle l.bot.systems × (booked_of l.bot.risk ≡ booked_of (some risk))
  Reach-asleep {l} new r (inl dry) =
      Reach-Sleeps new r (Fits-unset l.stage l (Reach-Fits r) (inl (Reach-is_live r ∙ dry)))
  Reach-asleep {l} new r (inr making_yet) =
      Reach-Sleeps new r (Fits-unset l.stage l (Reach-Fits r) (inr making_yet))
