-- ===== src/Risk/RiskManager/Expiry.antt =====
-- `check_expiry` of src/risk/risk_manager.cpp on the codes that src/core/contract.hpp writes.
use finam_tradebot.Prelude.{
  ℕ, ◌+◌, ◌%◌, ◌≡◌, none, [], ◌∷◌, ◌++◌, ◌==◌, arith, Bool-cases, Option-cases, inl, inr,
}
use finam_tradebot.Prelude.Text.{Text, find}
use finam_tradebot.Core.Types.{ok, Timestamp}
use finam_tradebot.Core.Calendar.{today}
use finam_tradebot.Core.Contract.{
  contract_code, nearest_contract, nearest_expiry, quarter_letter, expiry_day, Expiry,
}
use finam_tradebot.Core.Contract.Nearest.{contract_code_lem}
use finam_tradebot.Double.{Double}
use finam_tradebot.Risk.RiskManager.{RiskManager, dashed_expiry, check_expiry}

find-append : (c : ℕ) (s t : Text) → find c s ≡ none → find c t ≡ none → find c (s ++ t) ≡ none
unfolding find
find-append c [] t h k = k
find-append c (e ∷ s) t h k = ground (arith, find-append c s t)

no_dot_in_suffix :
    (e : Expiry) → find b'.' (quarter_letter e.month ∷ (e.year % 10 + b'0') ∷ []) ≡ none
unfolding find quarter_letter
no_dot_in_suffix e = ground arith

find-contract_code :
    (ticker : Text) (e : Expiry)
    → find b'.' ticker ≡ none
    → find b'.' (contract_code ticker e) ≡ none
find-contract_code ticker e h =
    rw (contract_code_lem ticker e) (find-append b'.' ticker _ h (no_dot_in_suffix e))

dashed_expiry-no_dot : (code : Text) → find b'.' code ≡ none → dashed_expiry code ≡ none
unfolding dashed_expiry
dashed_expiry-no_dot code h = elim (Option-cases (find b'-' code)) [
  | inl e ↦ rw (e, dashed_expiry)
  | inr (n, e) ↦ rw (e, h, dashed_expiry)
]

module _ {W : Type 0} ⦃d : Double W⦄ where
  -- `check_expiry` passes every contract that `nearest_contract` has chosen at any time, however late
  -- it is asked and whatever the rollover days, if its ticker has no dot.
  pub check_expiry-nearest_contract :
      (ticker : Text) (days : ℕ) (chosen asked : Timestamp) (r : RiskManager W)
      → find b'.' ticker ≡ none
      → check_expiry (nearest_contract ticker days chosen) asked r ≡ ok tt
  unfolding check_expiry nearest_contract
  check_expiry-nearest_contract ticker days chosen asked r h =
      let e = nearest_expiry days (today chosen) in
      let nothing = dashed_expiry-no_dot (contract_code ticker e) (find-contract_code ticker e h) in
      elim (Bool-cases (expiry_day (nearest_contract ticker days chosen) == 0)) [
        | inl z ↦ rw (z, check_expiry)
        | inr z ↦ rw (z, nothing, check_expiry)
      ]
