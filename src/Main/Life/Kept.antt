-- ===== src/Main/Life/Kept.antt =====
-- How the tasks of the threads of src/main.cpp rest on earlier turns, from one turn to the next.
use mathlib.Core.Path.{subst}
use finam_tradebot.Prelude.{
  ℕ, ◌≡◌, refl, sym, inl, inr, true, Option, none, some, List, [], ◌∷◌, ◌++◌, arith,
}
use finam_tradebot.Prelude.Text.{Text}
use finam_tradebot.Core.Types.{Signal, Direction, OrderRequest}
use finam_tradebot.Double.{Double}
use finam_tradebot.Risk.RiskManager.{RiskManager, passed}
use finam_tradebot.Strategy.Runner.{Env, MdEvent, request_of}
use finam_tradebot.Strategy.Runner.Task.{
  Task, Check, breaker, daily_loss, drawdown, positions, expiry, margin, idle, checking, tripping,
  sending, sub_check, ask, task_of, after_sub_check, put, put-cases, task_of-sending,
}
use finam_tradebot.Main.Executor.{Executor}
use finam_tradebot.Main.Bot.Risk.{is_some}
use finam_tradebot.Main.Life.{Life, Move, Reach, later}
use finam_tradebot.Main.Bot.Rests.{RestsOn, up_to, passed-RestsOn, failed-RestsOn}
use finam_tradebot.Main.Life.Occurs.{
  Took, Occurs, Passes, Closes, IsJustified, AllJustified, TaskRests, TasksRest,
}

module _ {W : Type 0} ⦃d : Double W⦄ {default : MdEvent W} {executor : Executor W}
    {risk : RiskManager W} where
  pub later-TaskRests :
      {l l' : Life W} (r : Reach default executor risk l) (move : Move default l l')
      → (i : ℕ) (t : Task W) → TaskRests r i t
      → TaskRests (later r move) i t
  later-TaskRests r move i idle rests = tt
  later-TaskRests r move i (tripping reason) rests = tt
  later-TaskRests r move i (checking c req) rests = λ c' below. inr (rests c' below)
  later-TaskRests r move i (sending req) (inl closed_) = inl (inr closed_)
  later-TaskRests r move i (sending req) (inr all) = inr (λ c. inr (all c))

  pub later-AllJustified :
      {l l' : Life W} (r : Reach default executor risk l) (move : Move default l l')
      → (reqs : List (OrderRequest W)) → AllJustified r reqs
      → AllJustified (later r move) reqs
  later-AllJustified r move [] fine = tt
  later-AllJustified r move (req ∷ reqs) ((i, inl closed_), fine) =
      ((i, inl (inr closed_)), later-AllJustified r move reqs fine)
  later-AllJustified r move (req ∷ reqs) ((i, inr all), fine) =
      ((i, inr (λ c. inr (all c))), later-AllJustified r move reqs fine)

  pub append-AllJustified :
      {l : Life W} (r : Reach default executor risk l) (xs : List (OrderRequest W))
      → (i : ℕ) (y : OrderRequest W) → AllJustified r xs
      → IsJustified r i y
      → AllJustified r (xs ++ (y ∷ []))
  append-AllJustified r [] i y p q = ((i, q), tt)
  append-AllJustified r (x ∷ xs) i y p q = (p.0, append-AllJustified r xs i y p.1 q)

  pub put-TasksRest :
      {l : Life W} (r : Reach default executor risk l) (ts : ℕ → Task W) (i : ℕ) (t : Task W)
      → TasksRest r ts
      → TaskRests r i t
      → TasksRest r (put i t ts)
  put-TasksRest r ts i t old new j = elim (put-cases i j t ts) [
    | inl (here, now) ↦ rw now (rw here new)
    | inr same ↦ rw same (old j)
  ]

  pub begun-TaskRests :
      {l l' : Life W} (r : Reach default executor risk l) (move : Move default l l') (i : ℕ)
      → (account : Text) (sig : Signal W) (t : Task W) → task_of account sig ≡ t
      → ((req : OrderRequest W)
          → sig.direction ≡ Direction.close
          → req ≡ request_of account sig
          → Took (Closes i req) move)
      → TaskRests (later r move) i t
  unfolding task_of
  begun-TaskRests r move i account sig idle e took = tt
  begun-TaskRests r move i account sig (tripping reason) e took = tt
  begun-TaskRests r move i account sig (checking breaker req) e took =
      λ c' below. absurd (omega (arith, below))
  begun-TaskRests r move i account sig (checking daily_loss req) e took = absurd (ground (arith, e))
  begun-TaskRests r move i account sig (checking drawdown req) e took = absurd (ground (arith, e))
  begun-TaskRests r move i account sig (checking positions req) e took = absurd (ground (arith, e))
  begun-TaskRests r move i account sig (checking expiry req) e took = absurd (ground (arith, e))
  begun-TaskRests r move i account sig (checking margin req) e took = absurd (ground (arith, e))
  begun-TaskRests r move i account sig (sending req) e took =
      let (dir, same) = task_of-sending account sig req e in inl (inl (took req dir same))

  pub task_by :
      {l : Life W} (r : Reach default executor risk l) (i : ℕ) {t t' : Task W}
      → t ≡ t'
      → TaskRests r i t
      → TaskRests r i t'
  task_by r i e rests = subst (λ t. TaskRests r i t) e rests

  pub checked-TaskRests :
      {l l' : Life W} (r : Reach default executor risk l) (move : Move default l l') (i : ℕ)
      → (env : Env W) (c : Check) (req : OrderRequest W) (held : Option (RiskManager W))
      → is_some held ≡ true
      → TaskRests r i (checking c req)
      → ((m : RiskManager W)
          → held ≡ some m
          → sub_check c env.assets env.now req m ≡ passed
          → Took (Passes i c req) move)
      → TaskRests (later r move) i (after_sub_check c req (ask c env req held))
  unfolding ask
  checked-TaskRests r move i env c req none there before took = absurd (cc)
  checked-TaskRests r move i env c req (some m) there before took =
      let Closed = λ (req' : OrderRequest W). Occurs (Closes i req') (later r move) in
      let O = λ (c' : Check) (req' : OrderRequest W). Occurs (Passes i c' req') (later r move) in
      let res = sub_check c env.assets env.now req m in
      failed-RestsOn Closed O c req res (λ p.
        subst (λ x. RestsOn Closed O (after_sub_check c req x)) (sym p)
          (passed-RestsOn Closed O c req
            (up_to (λ c'. O c' req) c (λ c' below. inr (before c' below)) (inl (took m refl p)))))
