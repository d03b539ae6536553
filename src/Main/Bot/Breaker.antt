-- ===== src/Main/Bot/Breaker.antt =====
-- What the circuit breaker does to all that src/main.cpp joins.
pub mod Parts
pub mod Steps
use mathlib.Core.List.{append-nil, append_assoc}
use finam_tradebot.Prelude.{ℕ, ◌≡◌, sym, ◌∙◌, ap, ◌⊎◌, inl, inr, some, List, [], ◌∷◌, ◌++◌}
use finam_tradebot.Prelude.Text.{Text}
use finam_tradebot.Core.Types.{OrderSide, OrderRequest}
use finam_tradebot.Double.{Double}
use finam_tradebot.Strategy.Runner.{Env}
use finam_tradebot.Strategy.Runner.Task.{Task, idle, put, put-cases, pending, task_of-sell}
use finam_tradebot.Main.Bot.{
  Bot, Step, market, bar, watch, round, stream_order, account_poll, take_event, step,
}
use finam_tradebot.Main.Bot.Effect.{
  Untouched, Effect, stays, begins, checks, trips, sends, Changes, step-Changes,
}
use finam_tradebot.Main.Bot.Breaker.Parts.{Tripped, after_sub_check-pending}
use finam_tradebot.Main.Bot.Breaker.Steps.{step-Tripped}

module _ {W : Type 0} ⦃d : Double W⦄ where
  -- The order is a sell, or one thread was past the breaker with it.
  abbrev pub IsSettled : (ℕ → Task W) → OrderRequest W → Type 0
  IsSettled ts req = (req.side ≡ OrderSide.sell) ⊎ ((i : ℕ) × (pending (ts i) ≡ some req))

  abbrev pub AllSettled : (ℕ → Task W) → List (OrderRequest W) → Type 0
  AllSettled ts [] = Unit
  AllSettled ts (req ∷ reqs) = IsSettled ts req × AllSettled ts reqs

  append-AllSettled :
      (ts : ℕ → Task W) (xs : List (OrderRequest W)) (y : OrderRequest W)
      → AllSettled ts xs
      → IsSettled ts y
      → AllSettled ts (xs ++ (y ∷ []))
  append-AllSettled ts [] y p q = (q, tt)
  append-AllSettled ts (x ∷ xs) y (s, p) q = (s, append-AllSettled ts xs y p q)

  -- What is pending is settled.
  abbrev SettledTasks : (ℕ → Task W) → (ℕ → Task W) → Type 0
  SettledTasks ts₀ ts =
      (i : ℕ) (req : OrderRequest W) → pending (ts i) ≡ some req → IsSettled ts₀ req

  -- Since `b₀` the breaker has stayed tripped, all that was submitted is settled, and so is all that
  -- is pending.
  abbrev pub Outcome : Text → Bot W → Bot W → Type 0
  Outcome reason b₀ b =
      Tripped reason b.risk
      × ((new : List (OrderRequest W)) × (b.submitted ≡ b₀.submitted ++ new)
          × AllSettled b₀.tasks new)
      × SettledTasks b₀.tasks b.tasks

  pub same-Outcome : (reason : Text) (b : Bot W) → Tripped reason b.risk → Outcome reason b b
  same-Outcome reason b trip = (trip, ([], sym (append-nil b.submitted), tt), λ i req p. inr (i, p))

  put-SettledTasks :
      (ts₀ ts : ℕ → Task W) (i : ℕ) (t : Task W)
      → SettledTasks ts₀ ts
      → ((req : OrderRequest W) → pending t ≡ some req → IsSettled ts₀ req)
      → SettledTasks ts₀ (put i t ts)
  put-SettledTasks ts₀ ts i t old new j req p = elim (put-cases i j t ts) [
    | inl (here, now) ↦ new req (ap pending (sym now) ∙ p)
    | inr same ↦ old j req (ap pending (sym same) ∙ p)
  ]

  settled_by :
      (ts₀ : ℕ → Task W) {ts ts' : ℕ → Task W}
      → ts' ≡ ts
      → SettledTasks ts₀ ts
      → SettledTasks ts₀ ts'
  settled_by ts₀ e old = rw e old

  Untouched-Outcome :
      (reason : Text) (b₀ b b' : Bot W)
      → Outcome reason b₀ b
      → Tripped reason b'.risk
      → Untouched b b'
      → Outcome reason b₀ b'
  Untouched-Outcome reason b₀ b b' (_, (new, e, fine), tasks) trip (t, s) =
      (trip, (new, s ∙ e, fine), settled_by b₀.tasks t tasks)

  Effect-Outcome :
      (reason : Text) (i : ℕ) (env : Env W) (b₀ b b' : Bot W)
      → Outcome reason b₀ b
      → Tripped reason b'.risk
      → Effect i env b b'
      → Outcome reason b₀ b'
  Effect-Outcome reason i env b₀ b b' out trip (stays u) =
      Untouched-Outcome reason b₀ b b' out trip u
  Effect-Outcome reason i env b₀ b b' (_, (new, e, fine), tasks) trip (begins x here_ free t s) = (
    trip,
    (new, s ∙ e, fine),
    settled_by b₀.tasks t (
        put-SettledTasks b₀.tasks b.tasks i _ tasks
          (λ req p. inl (task_of-sell env.account_id (take_event env x).1 req p))),
  )
  Effect-Outcome reason i env b₀ b b' (trip₀, (new, e, fine), tasks) trip (checks c req at_ t s) = (
    trip,
    (new, s ∙ e, fine),
    settled_by b₀.tasks t (
        put-SettledTasks b₀.tasks b.tasks i _ tasks (λ req' p.
          tasks i req'
            (ap pending at_ ∙ after_sub_check-pending reason c env req req' b.risk trip₀ p))),
  )
  Effect-Outcome reason i env b₀ b b' (_, (new, e, fine), tasks) trip (trips t s) = (
    trip,
    (new, s ∙ e, fine),
    settled_by b₀.tasks t (put-SettledTasks b₀.tasks b.tasks i idle tasks (λ req p. absurd (cc))),
  )
  Effect-Outcome reason i env b₀ b b' (_, (new, e, fine), tasks) trip (sends req at_ t s) = (
    trip,
    (
      new ++ (req ∷ []),
      s ∙ ap (λ zs. zs ++ (req ∷ [])) e ∙ append_assoc b₀.submitted new (req ∷ []),
      append-AllSettled b₀.tasks new req fine (tasks i req (ap pending at_)),
    ),
    settled_by b₀.tasks t (put-SettledTasks b₀.tasks b.tasks i idle tasks (λ req p. absurd (cc))),
  )

  Changes-Outcome :
      (reason : Text) (x : Step W) (b₀ b b' : Bot W)
      → Outcome reason b₀ b
      → Tripped reason b'.risk
      → Changes x b b'
      → Outcome reason b₀ b'
  Changes-Outcome reason (round i env place) b₀ b b' out trip c =
      Effect-Outcome reason i env b₀ b b' out trip c
  Changes-Outcome reason (market i e) b₀ b b' out trip c =
      Untouched-Outcome reason b₀ b b' out trip c
  Changes-Outcome reason (bar i x) b₀ b b' out trip c = Untouched-Outcome reason b₀ b b' out trip c
  Changes-Outcome reason (watch i now) b₀ b b' out trip c =
      Untouched-Outcome reason b₀ b b' out trip c
  Changes-Outcome reason (stream_order o now) b₀ b b' out trip c =
      Untouched-Outcome reason b₀ b b' out trip c
  Changes-Outcome reason (account_poll a now) b₀ b b' out trip c =
      Untouched-Outcome reason b₀ b b' out trip c

  pub step-Outcome :
      (reason : Text) (x : Step W) (b₀ b : Bot W)
      → Outcome reason b₀ b
      → Outcome reason b₀ (step x b)
  step-Outcome reason x b₀ b out =
      Changes-Outcome reason x b₀ b (step x b) out (step-Tripped reason x b out.0)
        (step-Changes x b)
