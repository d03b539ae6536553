-- ===== src/Main/Startup.antt =====
-- The beginning of main in src/main.cpp: the options, the secret, the token, the risk manager and the
-- executor.
pub mod DryRun
use finam_tradebot.Prelude.{ℕ, false, Option, none, some, List, if◌then◌else◌}
use finam_tradebot.Prelude.Int.{pos}
use finam_tradebot.Prelude.Text.{Text}
use finam_tradebot.Core.Types.{Result, ok, err, Timestamp}
use finam_tradebot.Double.{Double}
use finam_tradebot.Risk.RiskManager
use finam_tradebot.Risk.RiskManager.{RiskManager, Reply, AccountReply, refresh_account}
use finam_tradebot.Auth.TokenManager
use finam_tradebot.Auth.TokenManager.{TokenManager, primary_account_id}
use finam_tradebot.Order.OrderClient
use finam_tradebot.Main.{Options, parse_args, risk_config}
use finam_tradebot.Main.Executor.{Executor, live, dry_run}

-- How the beginning ends: with an exit code, with an exception that nobody catches, or with all that
-- the rest of main works with.
pub data Startup (W : Type 0) : Type 0 where
  exits : ℕ → Startup W
  aborts : Startup W
  runs : TokenManager → RiskManager W → Executor W → Startup W

module _ {W : Type 0} ⦃d : Double W⦄ where
  -- `risk->start()` polls the account once before its thread does.
  unfoldable pub make_risk : Reply AccountReply → Timestamp → RiskManager W
  make_risk account now = (refresh_account account now (RiskManager.make risk_config)).0

  unfoldable pub make_executor : Options → Text → Executor W
  make_executor o account_id =
      if o.dry_run then dry_run (record { id = pos 0 }) else live (OrderClient.make account_id)

  -- After the call of `init`.
  unfoldable pub after_init :
      Options → Reply AccountReply → Timestamp → TokenManager × Result (Unit {0}) → Startup W
  after_init o account now (mgr, err e) = exits 1
  after_init o account now (mgr, ok u) = elim (primary_account_id mgr) [
    | none ↦ aborts
    | some account_id ↦ runs mgr (make_risk account now) (make_executor o account_id)
  ]

  -- The arguments of the command line without the name of the program, the secret of the environment,
  -- and what the remote calls answer.
  unfoldable pub startup :
      List Text
      → Option Text
      → (Text → Reply Text)
      → (Text → Reply (List Text))
      → Reply AccountReply
      → Timestamp
      → Startup W
  startup args none auth token_details account now = exits 1
  startup args (some secret) auth token_details account now =
      after_init (parse_args args (record { dry_run = false; debug_mode = false })) account now
        (TokenManager.init auth token_details secret TokenManager.make)
