-- ===== src/Main/Life/Occurs.antt =====
-- The turns of the threads of src/main.cpp on the way to a state, and the orders that rest on them.

use finam_tradebot.Prelude.{ℕ, ◌≡◌, ◌⊎◌, some, List, [], ◌∷◌, get_elem?}
use finam_tradebot.Core.Types.{Direction, OrderRequest}
use finam_tradebot.Double.{Double}
use finam_tradebot.Risk.RiskManager.{RiskManager, passed}
use finam_tradebot.Strategy.Runner.{MdEvent, request_of}
use finam_tradebot.Strategy.Runner.Queue.{System}
use finam_tradebot.Strategy.Runner.Task.{Task, Check, idle, checking, sub_check}
use finam_tradebot.Main.Executor.{Executor}
use finam_tradebot.Main.Bot.{
  Step, market, bar, watch, round, stream_order, account_poll, take_event,
}
use finam_tradebot.Main.Life.{
  Life, Move, make_one, set_callback, turn, clear_runners, destroy_one, end_clear, shut_down, Reach,
  start, later,
}
use finam_tradebot.Main.Bot.Rests.{RestsOn}

module _ {W : Type 0} ⦃d : Double W⦄ where
  -- In this turn the strategy thread of runner `i` asks the shared risk manager, as it is then, for
  -- one check of the order, with the clock and the assets of that turn, and the check passes.
  abbrev pub Passes : ℕ → Check → OrderRequest W → Step W → Life W → Type 0
  Passes i c req (round j env place) l =
      (j ≡ i)
      × (l.bot.tasks i ≡ checking c req)
      × ((m : RiskManager W) × (l.bot.risk ≡ some m)
          × (sub_check c env.assets env.now req m ≡ passed))
  Passes i c req (market j e) l = ⊥
  Passes i c req (bar j x) l = ⊥
  Passes i c req (watch j now) l = ⊥
  Passes i c req (stream_order o now) l = ⊥
  Passes i c req (account_poll a now) l = ⊥

  -- In this turn the strategy of runner `i` answers an event with a signal to close, whose order it is.
  abbrev pub Closes : ℕ → OrderRequest W → Step W → Life W → Type 0
  Closes i req (round j env place) l =
      (j ≡ i)
      × (l.bot.tasks i ≡ idle)
      × ((s : System W) × (get_elem? l.bot.systems i ≡ some s)
          × ((take_event env s).1.direction ≡ Direction.close)
          × (req ≡ request_of env.account_id (take_event env s).1))
  Closes i req (market j e) l = ⊥
  Closes i req (bar j x) l = ⊥
  Closes i req (watch j now) l = ⊥
  Closes i req (stream_order o now) l = ⊥
  Closes i req (account_poll a now) l = ⊥

  -- A property of a turn of a thread, in the state that it finds.
  abbrev pub Took :
      (Step W → Life W → Type 0)
      → {default : MdEvent W} {l l' : Life W} → Move default l l'
      → Type 0
  Took P {default} {l} (turn x up runs) = P x l
  Took P (make_one env m sc rest at_ has) = ⊥
  Took P (set_callback at_) = ⊥
  Took P (clear_runners at_) = ⊥
  Took P (destroy_one at_ there idle_) = ⊥
  Took P (end_clear at_ all) = ⊥
  Took P (shut_down at_) = ⊥

module _ {W : Type 0} ⦃d : Double W⦄ {default : MdEvent W} {executor : Executor W}
    {risk : RiskManager W} where
  -- One of the turns that have led here has the property.
  abbrev pub Occurs :
      (Step W → Life W → Type 0) → {l : Life W} → Reach default executor risk l → Type 0
  Occurs P start = ⊥
  Occurs P (later r move) = Took P move ⊎ Occurs P r

  -- Runner `i` has closed with this order, or has brought it through all six checks.
  abbrev pub IsJustified :
      {l : Life W} → Reach default executor risk l → ℕ → OrderRequest W → Type 0
  IsJustified r i req = Occurs (Closes i req) r ⊎ ((c : Check) → Occurs (Passes i c req) r)

  abbrev pub AllJustified :
      {l : Life W} → Reach default executor risk l → List (OrderRequest W) → Type 0
  AllJustified r [] = Unit
  AllJustified r (req ∷ reqs) = ((i : ℕ) × IsJustified r i req) × AllJustified r reqs

  abbrev pub TaskRests : {l : Life W} → Reach default executor risk l → ℕ → Task W → Type 0
  TaskRests r i t = RestsOn (λ req. Occurs (Closes i req) r) (λ c req. Occurs (Passes i c req) r) t

  abbrev pub TasksRest : {l : Life W} → Reach default executor risk l → (ℕ → Task W) → Type 0
  TasksRest r ts = (i : ℕ) → TaskRests r i (ts i)
