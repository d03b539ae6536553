-- ===== src/Tests/Systems.antt =====
-- Runs of the parts that src/main.cpp joins.
use finam_tradebot.Prelude.{
  ◌≡◌, refl, true, false, none, some, List, [], ◌∷◌, ◌*◌, get_or, replicate, length, set,
}
use finam_tradebot.Prelude.Int.{pos, ◌-ℤ◌}
use finam_tradebot.Prelude.Map.{lookup}
use finam_tradebot.Prelude.Text.{Text, text, is_empty, stol}
use finam_tradebot.Core.Types.{Bar, OrderSide, OrderUpdate, second}
use finam_tradebot.Core.Maintenance
use finam_tradebot.Double.Fixed.{Fixed, fixed_double}
use finam_tradebot.Risk.RiskManager.{Reply, reply}
use finam_tradebot.Auth.TokenManager
use finam_tradebot.Auth.TokenManager.{Renewals, init, run_renewal_stream, primary_account_id}
use finam_tradebot.Auth.TokenManager.Renewal.{renewal-IsUsable}
use finam_tradebot.Order.OrderClient.{ProtoStatus, on_stream_order, prev_filled, find}
use finam_tradebot.Order.OrderStream.{Response, Round, run_order_stream, on_orders}
use finam_tradebot.Order.OrderStream.Reconnect.{Reads, reported_orders, run_order_stream-Reads}
use finam_tradebot.Strategy.Runner.{Runner, order_update}
use finam_tradebot.Backtest
use finam_tradebot.Backtest.{BacktestRunner, BacktestResult}
use finam_tradebot.Backtest.Trades.{IsIdle, run-IsIdle}
use finam_tradebot.Main.{make_runners, make_symbol_configs, broadcast}
use finam_tradebot.Main.Broadcast.{booked, unknown_order_lem}
use finam_tradebot.Main.Instruments.{broadcast-make_runners}
use finam_tradebot.Tests.Fixtures.{
  bullish, bar_of, num, account, client, env, risk, runner, fill_of, streamed_order, si_june,
}

-- Somebody else's order, or one whose number is not recorded yet.
abbrev runners : List (Runner Fixed)
runners = make_runners env risk

unknown_order_lem_example :
    (let upd = (on_stream_order (streamed_order ProtoStatus.filled (text "5")) 7 client).1 in
      broadcast upd runners (some risk) ≡ (
        some (booked (length runners) upd risk),
        replicate (length runners) (some (order_update upd)),
      ))
unfolding find lookup text stol
unknown_order_lem_example =
    unknown_order_lem (streamed_order ProtoStatus.filled (text "5")) 7 client runners risk refl

-- A sell of five without a symbol, while five are held.
abbrev gold : Runner Fixed
gold = get_or runners 2 runner

abbrev gold_fill : OrderUpdate Fixed
gold_fill = record (fill_of OrderSide.buy 100 1) { symbol = gold.active_symbol }

broadcast-make_runners_example :
    broadcast gold_fill (make_runners env risk) (some risk)
    ≡ (some (booked 1 gold_fill risk), set (replicate 5 none) 2 (some (order_update gold_fill)))
unfolding make_runners make_symbol_configs
broadcast-make_runners_example = broadcast-make_runners env risk gold_fill 2 gold refl refl

-- The order is recorded under the symbol of June, and the runner has moved on to September.
abbrev grant : Text → Reply Text
grant secret = reply (text "jwt")

abbrev accounts : Text → Reply (List Text)
accounts token = reply (account ∷ [])

abbrev renewals : List Renewals
renewals =
    record { tokens = [] ∷ text "next" ∷ []; stopped = false }
    ∷ record { tokens = [] ∷ []; stopped = true }
    ∷ []

renewal-IsUsable_example :
    (let s' =
        (run_renewal_stream
          (text "secret")
          renewals
          (init grant accounts (text "secret") TokenManager.make).0).0 in
      (is_empty s'.jwt ≡ false) × ((id : Text) × (primary_account_id s' ≡ some id)))
unfolding init TokenManager.add_accounts TokenManager.store_jwt text
renewal-IsUsable_example =
    renewal-IsUsable grant accounts (text "secret") renewals TokenManager.make refl refl

abbrev half_done : Response
half_done = (streamed_order ProtoStatus.partially_filled (text "2"), 7) ∷ []

abbrev all_done : Response
all_done = (streamed_order ProtoStatus.filled (text "5"), 9) ∷ []

-- The stream is lost between two responses for one order.
abbrev rounds : List Round
rounds =
    record {
      entered = 0;
      readings = [];
      responses = half_done ∷ [];
      stopped = false;
      ended = 0;
      stop_reads = λ i. false;
    }
    ∷ record {
      entered = 9_000 * second;
      readings = record { stop = false; now = 12_600 * second } ∷ [];
      responses = all_done ∷ [];
      stopped = true;
      ended = 0;
      stop_reads = λ i. false;
    }
    ∷ []

run_order_stream-Reads_example :
    (os : Response) × (run_order_stream (λ a b. a) rounds client ≡ some (on_orders os client))
    × Reads rounds os
    × (reported_orders (pos 1) os client
        ≡ prev_filled (pos 1) (on_orders os client).0 -ℤ prev_filled (pos 1) client)
unfolding Maintenance.wait_if_active Maintenance.poll Maintenance.is_active Maintenance.in_window
    Maintenance.utc_min
run_order_stream-Reads_example =
    run_order_stream-Reads (λ a b. a) rounds client (pos 1) ((true, refl), ((true, refl), tt))

abbrev ticks : Backtest.Config Fixed
ticks = record {
  sl_ticks = num 30;
  tp_ticks = num 90;
  tick_size = num 1;
  slippage = num 0;
  commission = num 0;
}

abbrev days : List (Bar Fixed)
days = bar_of si_june 110 90 second ∷ bar_of si_june 150 40 (2 * second) ∷ []

run-IsIdle_example :
    (s : BacktestRunner Fixed) × (result : BacktestResult Fixed) × (Backtest.run days
        (Backtest.make bullish ticks)
      ≡ some (s, result))
    × IsIdle (s, result)
run-IsIdle_example = run-IsIdle days bullish ticks
