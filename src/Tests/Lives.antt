-- ===== src/Tests/Lives.antt =====
-- Starts and ends of the programs: main, the health server and the connectivity check.
use finam_tradebot.Prelude.{
  ℕ, zero, suc, sym, ◌∙◌, arith, ◌*◌, ◌≡◌, ◌≢◌, ◌⊎◌, ◌↔◌, refl, inr, true, false, some, List, [],
  ◌∷◌, ◌++◌, if◌then◌else◌,
}
use finam_tradebot.Prelude.Int.{pos}
use finam_tradebot.Prelude.Text.{Text, text, text_eq}
use finam_tradebot.Double.Fixed.{Fixed, fixed_double}
use finam_tradebot.Core.Types.{ok, second, Symbol, Bar}
use finam_tradebot.Strategy.OfiTypes.{BookLevelEvent, TradeEvent}
use finam_tradebot.Order.OrderClient.{PlaceRequest, PlaceReply, ProtoStatus, StreamOrder}
use finam_tradebot.Risk.RiskManager.{RiskManager, reply, failure, Reply}
use finam_tradebot.Strategy.Runner.{MdEvent, Env, rollover}
use finam_tradebot.Strategy.Runner.Flat.{booked_of}
use finam_tradebot.Auth.TokenManager.{init, add_accounts, store_jwt, primary_account_id}
use finam_tradebot.Main.{parse_args}
use finam_tradebot.Auth.TokenManager.Renewal.{started}
use finam_tradebot.ConnectivityCheck
use finam_tradebot.ConnectivityCheck.{Remote, exits}
use finam_tradebot.ConnectivityCheck.Verdict.{IsConnected, main_iff}
use finam_tradebot.Core.HealthServer.{HealthStatus}
use finam_tradebot.Core.HealthServer.Loop.{
  Round, stopping, quiet, readable, client, silent, refused, serve_loop, serve_loop_lem, replies_to,
}
use finam_tradebot.Main.Executor.{Executor, live, dry_run, is_live}
use finam_tradebot.Main.Bot.Idle.{AllIdle}
use finam_tradebot.Main.Startup.{Startup, startup, make_risk, runs, after_init, make_executor}
use finam_tradebot.Main.Startup.DryRun.{IsBegun, startup-cases, dry_run_harmless}
use finam_tradebot.Main.Life.{
  is_running, Life, dangles, Stage, serving, closed, making, cleared, Move, later, Reach,
  set_callback, turn,
}
use finam_tradebot.Main.Life.Justified.{Reach-AllJustified}
use finam_tradebot.Main.Life.Occurs.{AllJustified}
use finam_tradebot.Main.Bot.{market, round, stream_order, trade_feed, book_feed}
use finam_tradebot.Main.Life.Reachable.{Fits, Reach-Fits, turned, late_order_dangles}
use finam_tradebot.Main.Life.Asleep.{Reach-asleep}
use finam_tradebot.Main.Life.Progress.{Arrives, arrives_making, arrives_cleared}
use finam_tradebot.Tests.Fixtures.{
  num, bar_of, buy_trade, si_june, env, risk, streamed_order, account,
}
use finam_tradebot.Tests.Fixtures

abbrev default : MdEvent Fixed
default = rollover si_june

abbrev real : Executor Fixed
real = live Fixtures.client

abbrev dry : Executor Fixed
dry = dry_run (record { id = pos 0 })

abbrev filled_order : StreamOrder
filled_order = streamed_order ProtoStatus.filled (text "2")

-- main has destroyed its runners, and the order client goes on.
abbrev shutting : Arrives default real risk cleared
shutting = arrives_cleared default real risk env

abbrev late : Stage Fixed
late = cleared

late-closed : late ≢ closed
late-closed e = absurd (cc)

destroyed : shutting.0.gone ≡ 5
destroyed = let fit : Fits cleared shutting.0 = rw shutting.2 at (Reach-Fits shutting.1) in fit.0

late_order_dangles_example :
    Move default shutting.0 (turned (stream_order filled_order 7) shutting.0)
    × (dangles (stream_order filled_order 7) shutting.0 ≡ true)
    × ((turned (stream_order filled_order 7) shutting.0).dangling ≡ true)
late_order_dangles_example =
    late_order_dangles shutting.1 (omega (arith, destroyed))
      (λ shut. late-closed (sym shutting.2 ∙ shut)) filled_order 7

-- main has made its runners, and has not set the callback.
abbrev before_callback : Arrives default real risk (making [])
before_callback = arrives_making default real risk env

Reach-asleep_example :
    AllIdle before_callback.0.bot.systems
    × (booked_of before_callback.0.bot.risk ≡ booked_of (some risk))
Reach-asleep_example = Reach-asleep tt before_callback.1 (inr ([], before_callback.2))

abbrev on_duty : Stage Fixed
on_duty = serving

serving-closed : on_duty ≢ closed
serving-closed e = absurd (cc)

-- A history on which the opening range is left upwards: 21 and 40 minutes after seven.
abbrev history : Symbol → List (Bar Fixed)
history sym =
    bar_of sym 110 90 (421 * (60 * second)) ∷ bar_of sym 120 100 (440 * (60 * second)) ∷ []

abbrev env_history : Env Fixed
env_history = record env { get_bars = λ sym now. ok (history sym) }

-- A day without a loss.
abbrev calm : RiskManager Fixed
calm = record risk { state = record (risk.state) { daily_pnl = num 0 } }

abbrev began : Arrives default real calm (making [])
began = arrives_making default real calm env_history

abbrev buyers : BookLevelEvent Fixed
buyers = record {
  level = pos 0;
  price = num 120;
  old_bid_size = num 0;
  new_bid_size = num 50;
  old_ask_size = num 0;
  new_ask_size = num 0;
  ts = 441 * (60 * second);
}

abbrev bought : TradeEvent Fixed
bought = record buy_trade { ts = 441 * (60 * second) }

abbrev timeout : PlaceRequest → Reply PlaceReply
timeout r = failure (text "timeout")

-- An exchange that takes orders, and answers about assets.
abbrev willing : PlaceRequest → Reply PlaceReply
willing r = reply (record { order_id = text "X1"; status = ProtoStatus.filled })

goes :
    (n : ℕ) (l : Life Fixed)
    → Reach default real calm l
    → l.stage ≡ on_duty
    → l.gone ≡ 0
    → (l' : Life Fixed) × Reach default real calm l'
unfolding is_running
goes zero l r at_ whole_ = (l, r)
goes (suc n) l r at_ whole_ =
    goes n _
      (later r (
        turn (round 0 env_history willing) (λ shut. serving-closed (sym at_ ∙ shut))
          (rw whole_ refl)))
      at_ whole_

none_gone : began.0.gone ≡ 0
none_gone = let fit : Fits (making []) began.0 = rw began.2 at (Reach-Fits began.1) in fit.1

-- The callback is set, a trade and a change of the book come in, and the first strategy thread takes
-- both; on the second it enters, makes the six checks, and submits.
abbrev entered : (l : Life Fixed) × Reach default real calm l
unfolding is_running
entered =
    goes 9 _
      (later
        (later (later began.1 (set_callback began.2))
          (turn (market 0 (trade_feed bought)) serving-closed refl))
        (turn (market 0 (book_feed buyers)) serving-closed refl))
      refl none_gone

Reach-AllJustified_example : AllJustified entered.1 entered.0.bot.submitted
Reach-AllJustified_example = Reach-AllJustified entered.1

abbrev secret : Text
secret = text "s"

abbrev auth : Text → Reply Text
auth s = reply (text "T")

abbrev token_details : Text → Reply (List Text)
token_details token = reply (account ∷ [])

abbrev dry_args : List Text
dry_args = text "--debug" ∷ text "--dry-run" ∷ []

abbrev begun : Startup Fixed
begun = startup dry_args (some secret) auth token_details (failure (text "timeout")) 9

startup-cases_example :
    (begun ≡ Startup.exits 1)
    ⊎ IsBegun dry_args secret auth token_details (failure (text "timeout")) 9 begun
startup-cases_example =
    startup-cases dry_args secret auth token_details (failure (text "timeout")) 9

abbrev risk_at_start : RiskManager Fixed
risk_at_start = make_risk (failure (text "timeout")) 9

abbrev dry_shutting : Arrives default dry risk_at_start cleared
dry_shutting = arrives_cleared default dry risk_at_start env

begun-runs : begun ≡ runs (started secret (text "T") account []) risk_at_start dry
unfolding startup after_init init add_accounts store_jwt primary_account_id make_executor parse_args
    text text_eq
begun-runs = refl

dry_run_harmless_example :
    (is_live dry_shutting.0.bot.executor ≡ false)
    × AllIdle dry_shutting.0.bot.systems
    × (booked_of dry_shutting.0.bot.risk ≡ booked_of (some risk_at_start))
unfolding text text_eq
dry_run_harmless_example =
    dry_run_harmless dry_args secret auth token_details (failure (text "timeout")) 9
      (started secret (text "T") account []) risk_at_start dry default dry_shutting.0 refl
      begun-runs tt dry_shutting.1

abbrev status : HealthStatus Fixed
status = record {
  ok = true;
  active_symbol = [];
  daily_pnl = pos 0;
  liquid_value = pos 0;
  circuit_breaker = false;
}

abbrev rounds : List (Round Fixed)
rounds = quiet ∷ readable refused ∷ readable (client (text "GET /health HTTP/1.1") status) ∷ []

serve_loop_lem_example :
    (serve_loop true true (rounds ++ (stopping ∷ []))
      ≡ record { replies = replies_to rounds; open_fds = 0; returned = true })
    × (serve_loop true true (rounds ++ (readable silent ∷ []))
        ≡ record { replies = replies_to rounds; open_fds = 2; returned = false })
serve_loop_lem_example = serve_loop_lem rounds [] tt

abbrev remote : Remote
remote = record {
  auth = auth;
  token_details = token_details;
  get_account = λ req. reply (text "1000");
  get_asset =
      λ req. if text_eq req.symbol (text "BRM6@RTSX") then reply tt else failure (text "not found");
}

main_iff_example :
    ((ConnectivityCheck.main (some secret) remote).0 ≡ exits 0) ↔ IsConnected secret remote
main_iff_example = main_iff secret remote
