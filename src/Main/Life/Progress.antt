-- ===== src/Main/Life/Progress.antt =====
-- main of src/main.cpp on its way from the first runner to the end.
use finam_tradebot.Prelude.{
  ℕ, zero, suc, ◌+◌, ◌<◌, ◌≡◌, refl, some, List, [], ◌∷◌, length, length-append, arith,
}
use finam_tradebot.Double.{Double}
use finam_tradebot.Risk.RiskManager.{RiskManager}
use finam_tradebot.Strategy.Runner.{MdEvent, Env}
use finam_tradebot.Strategy.Runner.Task.{idle}
use finam_tradebot.Main.{SymbolConfig, make_symbol_configs}
use finam_tradebot.Main.Executor.{Executor}
use finam_tradebot.Main.Life.{
  Stage, making, clearing, cleared, Life, launch, add_runner, make_one, set_callback, clear_runners,
  destroy_one, end_clear, Reach, start, later,
}

module _ {W : Type 0} ⦃d : Double W⦄ where
  -- A state at the stage is reached.
  abbrev pub Arrives : MdEvent W → Executor W → RiskManager W → Stage W → Type 0
  Arrives default executor risk at_ = (l : Life W) × Reach default executor risk l × (l.stage ≡ at_)

  -- So that no thread has a task, and a number of runners has been made.
  abbrev Quietly : MdEvent W → Executor W → RiskManager W → Stage W → ℕ → Type 0
  Quietly default executor risk at_ n =
      (l : Life W) × Reach default executor risk l
      × (l.stage ≡ at_)
      × ((i : ℕ) → l.bot.tasks i ≡ idle)
      × (l.gone + n ≡ length l.bot.systems)

  makes_all :
      (default : MdEvent W) (executor : Executor W) (risk : RiskManager W) (env : Env W)
      → (scs : List (SymbolConfig W)) (l : Life W) → Reach default executor risk l
      → l.stage ≡ making scs
      → l.bot.risk ≡ some risk
      → (k : ℕ) → ((i : ℕ) → l.bot.tasks i ≡ idle)
      → l.gone + k ≡ length l.bot.systems
      → Quietly default executor risk (making []) (k + length scs)
  unfolding add_runner
  makes_all default executor risk env [] l r at_ has k none_ made =
      (l, r, at_, none_, omega (arith, made))
  makes_all default executor risk env (sc ∷ scs) l r at_ has k none_ made =
      let (l', r', at_', none_', made') =
        makes_all default executor risk env scs _ (later r (make_one env risk sc scs at_ has)) refl
          has (k + 1) none_ (omega (arith, made, length-append l.bot.systems (_ ∷ []))) in
      (l', r', at_', none_', omega (arith, made'))

  begins_all :
      (default : MdEvent W) (executor : Executor W) (risk : RiskManager W) (env : Env W)
      → Quietly default executor risk (making []) 5
  unfolding launch make_symbol_configs
  begins_all default executor risk env =
      makes_all default executor risk env make_symbol_configs (launch executor risk) start refl refl
        0 (λ i. refl) refl

  pub arrives_making :
      (default : MdEvent W) (executor : Executor W) (risk : RiskManager W) (env : Env W)
      → Arrives default executor risk (making [])
  arrives_making default executor risk env =
      let (l, r, at_, none_, made) = begins_all default executor risk env in (l, r, at_)

  destroys_all :
      (default : MdEvent W) (executor : Executor W) (risk : RiskManager W) (n : ℕ)
      → Quietly default executor risk clearing n
      → Quietly default executor risk clearing 0
  destroys_all default executor risk zero q = q
  destroys_all default executor risk (suc n) (l, r, at_, none_, left) =
      let there : l.gone < length l.bot.systems = omega (arith, left) in
      destroys_all default executor risk n
        (_, later r (destroy_one at_ there (none_ l.gone)), at_, none_, omega (arith, left))

  pub arrives_cleared :
      (default : MdEvent W) (executor : Executor W) (risk : RiskManager W) (env : Env W)
      → Arrives default executor risk cleared
  arrives_cleared default executor risk env =
      let (l, r, at_, none_, made) = begins_all default executor risk env in
      let (l', r', at_', none_', all) =
        destroys_all default executor risk 5
          (_, later (later r (set_callback at_)) (clear_runners refl), refl, none_, made) in
      (_, later r' (end_clear at_' (omega (arith, all))), refl)
