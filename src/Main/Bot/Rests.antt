-- ===== src/Main/Bot/Rests.antt =====
-- What the task of a strategy thread of src/strategy/strategy_runner.hpp rests on: the checks of
-- src/risk/risk_manager.cpp that it has behind it.

use finam_tradebot.Prelude.{
  ℕ, ◌+◌, ◌<◌, ◌≡◌, refl, sym, ◌∙◌, ap, ◌⊎◌, inl, inr, Bool-cases, ltb, ◌==◌, if◌then◌else◌, arith,
}
use finam_tradebot.Core.Types.{Result, OrderRequest}
use finam_tradebot.Double.{Double}
use finam_tradebot.Risk.RiskManager.{passed}
use finam_tradebot.Strategy.Runner.Guard.{Result-cases}
use finam_tradebot.Strategy.Runner.Task.{
  Task, Check, breaker, daily_loss, drawdown, positions, expiry, margin, idle, checking, tripping,
  sending, next_check, after_sub_check,
}

-- The place of a check in the chain.
abbrev pub rank : Check → ℕ
rank breaker = 0
rank daily_loss = 1
rank drawdown = 2
rank positions = 3
rank expiry = 4
rank margin = 5

abbrev at_rank : ℕ → Check
at_rank n =
    if n == 0
    then breaker
    else (if n == 1
        then daily_loss
        else (if n == 2
            then drawdown
            else (if n == 3 then positions else (if n == 4 then expiry else margin))))

at_rank-rank : (c : Check) → at_rank (rank c) ≡ c
at_rank-rank breaker = refl
at_rank-rank daily_loss = refl
at_rank-rank drawdown = refl
at_rank-rank positions = refl
at_rank-rank expiry = refl
at_rank-rank margin = refl

rank_injective : (c c' : Check) → rank c' ≡ rank c → c ≡ c'
rank_injective c c' e = sym (at_rank-rank c) ∙ ap at_rank (sym e) ∙ at_rank-rank c'

rank_bound : (c : Check) → rank c < 6
rank_bound breaker = omega arith
rank_bound daily_loss = omega arith
rank_bound drawdown = omega arith
rank_bound positions = omega arith
rank_bound expiry = omega arith
rank_bound margin = omega arith

pub up_to :
    (O : Check → Type 0) (c : Check)
    → ((c' : Check) → rank c' < rank c → O c')
    → O c
    → (c' : Check) → rank c' < rank c + 1
    → O c'
up_to O c before now c' below = elim (Bool-cases (ltb (rank c') (rank c))) [
  | inl less ↦ before c' (ground (arith, less))
  | inr equal ↦ let e = rank_injective c c' (ground (arith, equal, below)) in rw (sym e) now
]

module _ {W : Type 0} ⦃d : Double W⦄ where
  -- What a task rests on: `Closed req` for an order that closes, `O c req` for each check that an
  -- entry has behind it.
  abbrev pub RestsOn :
      (OrderRequest W → Type 0) → (Check → OrderRequest W → Type 0) → Task W → Type 0
  RestsOn Closed O idle = Unit
  RestsOn Closed O (tripping reason) = Unit
  RestsOn Closed O (checking c req) = (c' : Check) → rank c' < rank c → O c' req
  RestsOn Closed O (sending req) = Closed req ⊎ ((c : Check) → O c req)

  pub passed-RestsOn :
      (Closed : OrderRequest W → Type 0) (O : Check → OrderRequest W → Type 0) (c : Check)
      (req : OrderRequest W)
      → ((c' : Check) → rank c' < rank c + 1 → O c' req)
      → RestsOn Closed O (after_sub_check c req passed)
  unfolding after_sub_check next_check
  passed-RestsOn Closed O breaker req all = all
  passed-RestsOn Closed O daily_loss req all = all
  passed-RestsOn Closed O drawdown req all = all
  passed-RestsOn Closed O positions req all = all
  passed-RestsOn Closed O expiry req all = all
  passed-RestsOn Closed O margin req all = inr (λ c. all c (rank_bound c))

  pub failed-RestsOn :
      (Closed : OrderRequest W → Type 0) (O : Check → OrderRequest W → Type 0) (c : Check)
      (req : OrderRequest W) (res : Result (Unit {0}))
      → ((res ≡ passed) → RestsOn Closed O (after_sub_check c req res))
      → RestsOn Closed O (after_sub_check c req res)
  unfolding after_sub_check
  failed-RestsOn Closed O c req res fine = elim (Result-cases res) [
    | inl p ↦ fine p
    | inr (e, f) ↦ rw f (ground arith)
  ]
