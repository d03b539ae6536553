-- ===== src/Main/Instruments.antt =====
-- The runners of the five instruments of src/main.cpp.
use finam_tradebot.Prelude.{
  ℕ, zero, suc, false, arith, ◌≡◌, refl, none, some, List, [], ◌∷◌, get_elem?, set, replicate,
}
use finam_tradebot.Core.Types.{OrderUpdate, symbol_eq}
use finam_tradebot.Core.Contract.{nearest_contract, contract_code}
use finam_tradebot.Double.{Double}
use finam_tradebot.Prelude.Text.{text, text_eq, is_empty}
use finam_tradebot.Risk.RiskManager.{RiskManager}
use finam_tradebot.Strategy.Runner
use finam_tradebot.Strategy.Runner.{Runner, Env, order_update}
use finam_tradebot.Main.{make_runners, make_runner, make_symbol_configs, strategy_config, broadcast}
use finam_tradebot.Main.Broadcast.{AllDistinct, booked, broadcast-AllDistinct}

module _ {W : Type 0} where
  -- The codes of the symbols are not empty.
  abbrev AllNamed : List (Runner W) → Type 0
  AllNamed [] = Unit
  AllNamed (r ∷ rs) = (is_empty r.active_symbol.security_code ≡ false) × AllNamed rs

  AllNamed-get_elem? :
      (rs : List (Runner W)) (i : ℕ) (r : Runner W)
      → AllNamed rs
      → get_elem? rs i ≡ some r
      → is_empty r.active_symbol.security_code ≡ false
  AllNamed-get_elem? [] i r named there = absurd (ground arith)
  AllNamed-get_elem? (s ∷ rs) zero r named there = ground (arith, named.0)
  AllNamed-get_elem? (s ∷ rs) (suc i) r named there = AllNamed-get_elem? rs i r named.1 there

module _ {W : Type 0} ⦃d : Double W⦄ (env : Env W) (risk : RiskManager W) where
  make_runners-AllDistinct : AllDistinct (make_runners env risk)
  unfolding make_runners make_runner make_symbol_configs strategy_config Runner.make
      nearest_contract contract_code symbol_eq text text_eq
  make_runners-AllDistinct = (
    (refl, (refl, (refl, (refl, tt)))),
    ((refl, (refl, (refl, tt))), ((refl, (refl, tt)), ((refl, tt), (tt, tt)))),
  )

  make_runners-AllNamed : AllNamed (make_runners env risk)
  unfolding make_runners make_runner make_symbol_configs strategy_config Runner.make
      nearest_contract contract_code text
  make_runners-AllNamed = (refl, (refl, (refl, (refl, (refl, tt)))))

  -- When the bot has started, whatever the date, an update with the symbol of one of its five runners
  -- reaches the queue of that runner alone, and the risk manager books its fill once.
  pub broadcast-make_runners :
      (upd : OrderUpdate W) (i : ℕ) (r : Runner W)
      → get_elem? (make_runners env risk) i ≡ some r
      → upd.symbol ≡ r.active_symbol
      → broadcast upd (make_runners env risk) (some risk)
        ≡ (some (booked 1 upd risk), set (replicate 5 none) i (some (order_update upd)))
  unfolding make_runners make_symbol_configs
  broadcast-make_runners upd i r there own =
      let named = AllNamed-get_elem? (make_runners env risk) i r make_runners-AllNamed there in
      broadcast-AllDistinct upd (make_runners env risk) risk i r (rw own named)
        make_runners-AllDistinct there own
