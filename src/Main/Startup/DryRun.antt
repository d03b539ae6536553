-- ===== src/Main/Startup/DryRun.antt =====
-- When the program of src/main.cpp starts, and what it starts with.
use finam_tradebot.Prelude.{
  ◌≡◌, refl, sym, ap, ◌∙◌, ◌⊎◌, inl, inr, Bool, true, false, ◌||◌, some, List, [], ◌∷◌, arith,
  if◌then◌else◌,
}
use finam_tradebot.Prelude.Int.{pos}
use finam_tradebot.Prelude.Text.{Text, text, text_eq}
use finam_tradebot.Core.Types.{Timestamp}
use finam_tradebot.Double.{Double}
use finam_tradebot.Risk.RiskManager.{RiskManager, Reply, reply, AccountReply}
use finam_tradebot.Auth.TokenManager.{
  TokenManager, init, add_accounts, store_jwt, primary_account_id,
}
use finam_tradebot.Auth.TokenManager.Renewal.{Reply-cases, started, init-started}
use finam_tradebot.Order.OrderClient
use finam_tradebot.Strategy.Runner.{MdEvent}
use finam_tradebot.Main.{Options, parse_args}
use finam_tradebot.Main.Executor.{Executor, live, dry_run, is_live}
use finam_tradebot.Main.Startup.{
  Startup, exits, aborts, runs, make_risk, make_executor, after_init, startup,
}
use finam_tradebot.Main.Life.{Life, Reach}
use finam_tradebot.Main.Life.Asleep.{Reach-asleep}
use finam_tradebot.Main.Bot.Idle.{AllIdle}
use finam_tradebot.Strategy.Runner.Flat.{IsNews, booked_of}
use finam_tradebot.Main.Life.Reachable.{Reach-is_live}

-- An argument asks for a dry run.
abbrev pub asks_dry_run : List Text → Bool
asks_dry_run [] = false
asks_dry_run (arg ∷ args) = text_eq arg (text "--dry-run") || asks_dry_run args

parse_args-dry_run :
    (args : List Text) (o : Options) → (parse_args args o).dry_run ≡ asks_dry_run args || o.dry_run
unfolding parse_args
parse_args-dry_run [] o = refl
parse_args-dry_run (arg ∷ args) o = rw (parse_args-dry_run args _) (ground arith)

true-false : true ≡ false → ⊥
true-false e = absurd (cc)

or_false : (b : Bool) → (b || false) ≡ b
or_false b = ground arith

module _ {W : Type 0} ⦃d : Double W⦄ where
  abbrev pub executor_for : Bool → Text → Executor W
  executor_for dry account_id =
      if dry then dry_run (record { id = pos 0 }) else live (OrderClient.make account_id)

  make_executor_lem :
      (args : List Text) (account_id : Text)
      → make_executor (parse_args args (record { dry_run = false; debug_mode = false })) account_id
        ≡ executor_for (asks_dry_run args) account_id
  unfolding make_executor
  make_executor_lem args account_id =
      let o : Options = record { dry_run = false; debug_mode = false } in
      rw (parse_args-dry_run args o, or_false (asks_dry_run args))

  startup-started :
      (args : List Text) (secret token account_id : Text) (others : List Text)
      → (auth : Text → Reply Text) (token_details : Text → Reply (List Text))
      → (account : Reply AccountReply) (now : Timestamp) → auth secret ≡ reply token
      → token_details token ≡ reply (account_id ∷ others)
      → startup args (some secret) auth token_details account now
        ≡ runs
            (started secret token account_id others)
            (make_risk account now)
            (executor_for (asks_dry_run args) account_id)
  unfolding startup after_init primary_account_id
  startup-started args secret token account_id others auth token_details account now authorized
        detailed =
      let o = parse_args args (record { dry_run = false; debug_mode = false }) in
      ap (after_init o account now)
        (init-started auth token_details secret token account_id others authorized detailed)
      ∙ ap (runs (started secret token account_id others) (make_risk account now))
          (make_executor_lem args account_id)

  -- The program goes on: both calls have answered, and there is an account.
  pub record IsBegun (args : List Text) (secret : Text) (auth : Text → Reply Text)
      (token_details : Text → Reply (List Text)) (account : Reply AccountReply) (now : Timestamp)
      (begun : Startup W) : Type 0 where
    pub token : Text
    pub account_id : Text
    pub others : List Text
    pub authorized : auth secret ≡ reply token
    pub detailed : token_details token ≡ reply (account_id ∷ others)
    pub goes_on :
        begun
        ≡ runs
            (started secret token account_id others)
            (make_risk account now)
            (executor_for (asks_dry_run args) account_id)

  -- Either the program ends with 1, or both calls have answered, there is an account, and it goes on
  -- with the first one, the risk manager that has polled it once, and an executor that is the order
  -- client unless an argument is --dry-run. It never ends with an exception here.
  pub startup-cases :
      (args : List Text) (secret : Text)
      → (auth : Text → Reply Text) (token_details : Text → Reply (List Text))
      → (account : Reply AccountReply) (now : Timestamp)
      → let begun : Startup W = startup args (some secret) auth token_details account now in
        (begun ≡ exits 1) ⊎ IsBegun args secret auth token_details account now begun
  unfolding startup after_init init add_accounts store_jwt primary_account_id make_executor
  startup-cases args secret auth token_details account now = elim (Reply-cases (auth secret)) [
    | inl (msg, refused) ↦ inl (rw (refused, startup, init, after_init))
    | inr (token, authorized) ↦ elim (Reply-cases (token_details token)) [
      | inl (msg, unknown) ↦ inl (rw (authorized, startup, init, unknown, after_init))
      | inr ([], bare) ↦ inl (rw (authorized, startup, init, bare, add_accounts, after_init))
      | inr (account_id ∷ others, detailed) ↦ inr (record {
        token = token;
        account_id = account_id;
        others = others;
        authorized = authorized;
        detailed = detailed;
        goes_on =
            startup-started args secret token account_id others auth token_details account now
              authorized detailed;
      })
    ]
  ]

  -- The executor that a program that goes on has.
  abbrev executor_of : Executor W → Startup W → Executor W
  executor_of x (exits code) = x
  executor_of x aborts = x
  executor_of x (runs mgr risk executor) = executor

  abbrev is_running : Startup W → Bool
  is_running (exits code) = false
  is_running aborts = false
  is_running (runs mgr risk executor) = true

  startup-dry :
      (args : List Text) (secret : Text)
      → (auth : Text → Reply Text) (token_details : Text → Reply (List Text))
      → (account : Reply AccountReply) (now : Timestamp) (mgr : TokenManager)
      → (risk : RiskManager W) (executor : Executor W) → asks_dry_run args ≡ true
      → startup args (some secret) auth token_details account now ≡ runs mgr risk executor
      → is_live executor ≡ false
  startup-dry args secret auth token_details account now mgr risk executor dry begun =
      elim (startup-cases args secret auth token_details account now) [
        | inl over ↦ absurd (true-false (sym (ap is_running begun) ∙ ap is_running over))
        | inr b ↦
            let same : executor ≡ executor_for (asks_dry_run args) b.account_id =
              ap (executor_of executor) (sym begun ∙ b.goes_on) in
            rw (same, dry)
      ]

  -- With --dry-run among the arguments, in every state that the program reaches, whatever the threads
  -- do in whatever order: the executor is not the order client, so that no order reaches the
  -- exchange, no strategy has a position, and the positions that the risk manager has booked are
  -- those it began with. The buffers of the queues begin with an event that is no update.
  pub dry_run_harmless :
      (args : List Text) (secret : Text)
      → (auth : Text → Reply Text) (token_details : Text → Reply (List Text))
      → (account : Reply AccountReply) (now : Timestamp) (mgr : TokenManager)
      → (risk : RiskManager W) (executor : Executor W) (default : MdEvent W) (l : Life W)
      → asks_dry_run args ≡ true
      → startup args (some secret) auth token_details account now ≡ runs mgr risk executor
      → IsNews default
      → Reach default executor risk l
      → (is_live l.bot.executor ≡ false)
        × AllIdle l.bot.systems
        × (booked_of l.bot.risk ≡ booked_of (some risk))
  dry_run_harmless args secret auth token_details account now mgr risk executor default l dry begun
        new r =
      let not_live =
        startup-dry args secret auth token_details account now mgr risk executor dry begun in
      let (idle, booked) = Reach-asleep new r (inl not_live) in
      (Reach-is_live r ∙ not_live, idle, booked)
