-- ===== src/Main/Life/Justified.antt =====
-- Which orders the program of src/main.cpp submits.

use finam_tradebot.Prelude.{ℕ, ◌≡◌, refl, ◌∙◌, true}
use finam_tradebot.Core.Types.{OrderRequest}
use finam_tradebot.Double.{Double}
use finam_tradebot.Risk.RiskManager.{RiskManager, Reply}
use finam_tradebot.Order.OrderClient.{PlaceRequest, PlaceReply}
use finam_tradebot.Strategy.Runner.{Env, MdEvent}
use finam_tradebot.Strategy.Runner.Task.{Task, idle, checking, sending, task_of}
use finam_tradebot.Main.Executor.{Executor}
use finam_tradebot.Main.Bot.{
  Bot, Step, market, bar, watch, round, stream_order, account_poll, take_event, step,
}
use finam_tradebot.Main.Bot.Effect.{
  Effect, stays, begins, checks, trips, sends, Changes, step-Changes,
}
use finam_tradebot.Main.Bot.Risk.{is_some, step-is_some}
use finam_tradebot.Main.Life.{
  Life, launch, add_runner, Move, make_one, set_callback, turn, clear_runners, destroy_one,
  end_clear, shut_down, Reach, start, later,
}
use finam_tradebot.Main.Life.Occurs.{
  Took, Passes, Closes, IsJustified, AllJustified, TaskRests, TasksRest,
}
use finam_tradebot.Main.Life.Kept.{
  later-TaskRests, later-AllJustified, append-AllJustified, put-TasksRest, begun-TaskRests,
  checked-TaskRests, task_by,
}

module _ {W : Type 0} ⦃d : Double W⦄ where
  Move-is_some :
      {default : MdEvent W} {l l' : Life W}
      → Move default l l'
      → is_some l'.bot.risk ≡ is_some l.bot.risk
  unfolding add_runner
  Move-is_some (make_one env m sc rest at_ has) = refl
  Move-is_some (set_callback at_) = refl
  Move-is_some {default} {l} (turn x up runs) = step-is_some x l.bot
  Move-is_some (clear_runners at_) = refl
  Move-is_some (destroy_one at_ there idle_) = refl
  Move-is_some (end_clear at_ all) = refl
  Move-is_some (shut_down at_) = refl

module _ {W : Type 0} ⦃d : Double W⦄ {default : MdEvent W} {executor : Executor W}
    {risk : RiskManager W} where
  Reach-is_some : {l : Life W} → Reach default executor risk l → is_some l.bot.risk ≡ true
  unfolding launch
  Reach-is_some start = refl
  Reach-is_some (later r move) = Move-is_some move ∙ Reach-is_some r

  -- Every task rests on turns that have been, and every order that was submitted is justified.
  abbrev AllRests : {l : Life W} → Reach default executor risk l → Bot W → Type 0
  AllRests r b = TasksRest r b.tasks × AllJustified r b.submitted

  later-AllRests :
      {l l' : Life W} (r : Reach default executor risk l) (move : Move default l l')
      → (b : Bot W) → AllRests r b
      → AllRests (later r move) b
  later-AllRests r move b (tasks, fine) = (
    λ i. later-TaskRests r move i (b.tasks i) (tasks i),
    later-AllJustified r move b.submitted fine,
  )

  moved-AllRests :
      {l : Life W} (r : Reach default executor risk l) (b b' : Bot W)
      → b'.tasks ≡ b.tasks
      → b'.submitted ≡ b.submitted
      → AllRests r b
      → AllRests r b'
  moved-AllRests r b b' t s rests = rw (t, s) rests

  sent-IsJustified :
      {l : Life W} (r : Reach default executor risk l) (i : ℕ) (ts : ℕ → Task W)
      (req : OrderRequest W)
      → ts i ≡ sending req
      → TasksRest r ts
      → IsJustified r i req
  sent-IsJustified r i ts req at_ tasks = task_by r i at_ (tasks i)

  Effect-AllRests :
      {l : Life W} (r : Reach default executor risk l) (i : ℕ) (env : Env W)
      (place : PlaceRequest → Reply PlaceReply) (b' : Bot W) {l' : Life W}
      (move : Move default l l')
      → ((P : Step W → Life W → Type 0) → P (round i env place) l → Took P move)
      → is_some l.bot.risk ≡ true
      → AllRests r l.bot
      → Effect i env l.bot b'
      → AllRests (later r move) b'
  Effect-AllRests {l} r i env place b' move took there rests (stays (t, s)) =
      moved-AllRests (later r move) l.bot b' t s (later-AllRests r move l.bot rests)
  Effect-AllRests {l} r i env place b' move took there rests (begins x here_ free t s) =
      let (tasks, fine) = later-AllRests r move l.bot rests in
      let sig = (take_event env x).1 in
      let begun =
        begun-TaskRests r move i env.account_id sig (task_of env.account_id sig) refl
          (λ req dir same. took (Closes i req) (refl, free, (x, here_, dir, same))) in
      rw (t, s) (put-TasksRest (later r move) l.bot.tasks i _ tasks begun, fine)
  Effect-AllRests {l} r i env place b' move took there rests (checks c req at_ t s) =
      let (tasks, fine) = later-AllRests r move l.bot rests in
      let before : TaskRests r i (checking c req) = task_by r i at_ (rests.0 i) in
      let checked =
        checked-TaskRests r move i env c req l.bot.risk there before
          (λ m held p. took (Passes i c req) (refl, at_, (m, held, p))) in
      rw (t, s) (put-TasksRest (later r move) l.bot.tasks i _ tasks checked, fine)
  Effect-AllRests {l} r i env place b' move took there rests (trips t s) =
      let (tasks, fine) = later-AllRests r move l.bot rests in
      rw (t, s) (put-TasksRest (later r move) l.bot.tasks i idle tasks tt, fine)
  Effect-AllRests {l} r i env place b' move took there rests (sends req at_ t s) =
      let (tasks, fine) = later-AllRests r move l.bot rests in
      let sent = sent-IsJustified (later r move) i l.bot.tasks req at_ tasks in
      rw (t, s)
        (
          put-TasksRest (later r move) l.bot.tasks i idle tasks tt,
          append-AllJustified (later r move) l.bot.submitted i req fine sent,
        )

  turn-AllRests :
      {l : Life W} (r : Reach default executor risk l) (x : Step W) (b' : Bot W) {l' : Life W}
      (move : Move default l l')
      → ((P : Step W → Life W → Type 0) → P x l → Took P move)
      → is_some l.bot.risk ≡ true
      → AllRests r l.bot
      → Changes x l.bot b'
      → AllRests (later r move) b'
  turn-AllRests r (round i env place) b' move took there rests c =
      Effect-AllRests r i env place b' move took there rests c
  turn-AllRests {l} r (market i e) b' move took there rests c =
      moved-AllRests (later r move) l.bot b' c.0 c.1 (later-AllRests r move l.bot rests)
  turn-AllRests {l} r (bar i x) b' move took there rests c =
      moved-AllRests (later r move) l.bot b' c.0 c.1 (later-AllRests r move l.bot rests)
  turn-AllRests {l} r (watch i now) b' move took there rests c =
      moved-AllRests (later r move) l.bot b' c.0 c.1 (later-AllRests r move l.bot rests)
  turn-AllRests {l} r (stream_order o now) b' move took there rests c =
      moved-AllRests (later r move) l.bot b' c.0 c.1 (later-AllRests r move l.bot rests)
  turn-AllRests {l} r (account_poll a now) b' move took there rests c =
      moved-AllRests (later r move) l.bot b' c.0 c.1 (later-AllRests r move l.bot rests)

  Move-AllRests :
      {l l' : Life W}
      → (r : Reach default executor risk l) (move : Move default l l') → AllRests r l.bot
      → AllRests (later r move) l'.bot
  unfolding add_runner
  Move-AllRests {l} r (make_one env m sc rest at_ has) rests =
      later-AllRests r (make_one env m sc rest at_ has) l.bot rests
  Move-AllRests {l} r (set_callback at_) rests = later-AllRests r (set_callback at_) l.bot rests
  Move-AllRests {l} r (turn x up runs) rests =
      turn-AllRests r x (step x l.bot) (turn x up runs) (λ P p. p) (Reach-is_some r) rests
        (step-Changes x l.bot)
  Move-AllRests {l} r (clear_runners at_) rests = later-AllRests r (clear_runners at_) l.bot rests
  Move-AllRests {l} r (destroy_one at_ there idle_) rests =
      later-AllRests r (destroy_one at_ there idle_) l.bot rests
  Move-AllRests {l} r (end_clear at_ all) rests = later-AllRests r (end_clear at_ all) l.bot rests
  Move-AllRests {l} r (shut_down at_) rests = later-AllRests r (shut_down at_) l.bot rests

  Reach-AllRests : {l : Life W} (r : Reach default executor risk l) → AllRests r l.bot
  unfolding launch
  Reach-AllRests start = (λ i. tt, tt)
  Reach-AllRests (later r move) = Move-AllRests r move (Reach-AllRests r)

  -- On every way on which the program can go, whatever main and the threads do in whatever order, for
  -- each order that has been submitted so far there is a runner whose strategy thread, in earlier turns
  -- on this way, has either answered an event with a signal to close, whose order it is, or has asked
  -- the shared risk manager for all six checks of the order, each as the manager was in that turn, and
  -- each has passed.
  pub Reach-AllJustified :
      {l : Life W} (r : Reach default executor risk l) → AllJustified r l.bot.submitted
  Reach-AllJustified r = (Reach-AllRests r).1
