-- ===== src/Tests/Bots.antt =====
-- A run of all that src/main.cpp joins.
use finam_tradebot.Prelude.{
  ℕ, ◌==◌, if◌then◌else◌, arith, ◌≡◌, ◌≢◌, refl, sym, ◌∙◌, true, false, some, List, [], ◌∷◌, ◌++◌,
}
use finam_tradebot.Prelude.Int.{pos}
use finam_tradebot.Prelude.Text.{Text, text}
use finam_tradebot.Core.Types.{second, OrderSide, OrderType, OrderRequest}
use finam_tradebot.Double.Fixed.{Fixed, fixed_double}
use finam_tradebot.Risk.RiskManager.{RiskManager, failure}
use finam_tradebot.Order.OrderClient.{ProtoStatus}
use finam_tradebot.Strategy.Runner.{rollover}
use finam_tradebot.Strategy.Runner.Queue
use finam_tradebot.Strategy.Runner.Queue.{System}
use finam_tradebot.Main.Executor
use finam_tradebot.Main.Executor.{live}
use finam_tradebot.Order.OrderClient
use finam_tradebot.Main.Bot.{
  Bot, Step, quote_feed, market, bar, watch, round, stream_order, account_poll, step, round_of,
  go_on, submit_one, deliver_all,
}
use finam_tradebot.Main.Life.{
  Life, Stage, serving, closed, is_running, turn, clear_runners, Onward, here, and_then,
}
use finam_tradebot.Main.Life.Tripped.{Onward-Tripped}
use finam_tradebot.Main.Bot.Breaker.Parts.{Tripped}
use finam_tradebot.Main.Bot.Breaker.{AllSettled}
use finam_tradebot.Strategy.Runner.Task.{Task, sending, checking, breaker}
use finam_tradebot.Tests.Fixtures.{
  num, si_june, client, env, risk, runner, bar_of, quote_of, streamed_order,
}

abbrev reason : Text
reason = text "daily loss limit hit"

abbrev stopped : RiskManager Fixed
stopped = record risk { tripped = true; trip_reason = reason }

abbrev both : List (System Fixed)
both = Queue.make (rollover si_june) runner ∷ Queue.make (rollover si_june) runner ∷ []

abbrev buy : OrderRequest Fixed
buy = record {
  client_id = text "A";
  symbol = si_june;
  side = OrderSide.buy;
  order_type = OrderType.market;
  price = num 0;
  quantity = pos 1;
}

-- The first thread is about to submit an order that has passed all checks, the second to ask for the
-- breaker.
abbrev waiting_tasks : ℕ → Task Fixed
waiting_tasks i = if i == 0 then sending buy else checking breaker buy

abbrev bot : Bot Fixed
bot = record {
  executor = live client;
  risk = some stopped;
  wired = true;
  systems = both;
  tasks = waiting_tasks;
  submitted = [];
}

abbrev steps : List (Step Fixed)
steps =
    market 0 (quote_feed (quote_of si_june 60 1))
    ∷ bar 1 (bar_of si_june 110 90 second)
    ∷ stream_order (streamed_order ProtoStatus.filled (text "2")) 7
    ∷ round 0 env (λ r. failure (text "timeout"))
    ∷ account_poll (failure (text "timeout")) 9
    ∷ round 1 env (λ r. failure (text "timeout"))
    ∷ []

abbrev life : Life Fixed
life = record { stage = serving; bot = bot; gone = 0; dangling = false }

abbrev waiting : Stage Fixed
waiting = serving

waiting-closed : waiting ≢ closed
waiting-closed e = absurd (cc)

-- The life goes on by steps while main waits.
abbrev Goes : Life Fixed → Type 0
Goes l = (l' : Life Fixed) × Onward (rollover si_june) l l' × (l'.stage ≡ serving) × (l'.gone ≡ 0)

is_running-all : (x : Step Fixed) (n : ℕ) → n ≡ 0 → is_running x n ≡ true
unfolding is_running
is_running-all (market i e) n h = refl
is_running-all (bar i b) n h = refl
is_running-all (watch i now) n h = ground arith
is_running-all (round i env place) n h = ground arith
is_running-all (stream_order o now) n h = refl
is_running-all (account_poll a now) n h = refl

onward_by :
    (xs : List (Step Fixed)) (l l' : Life Fixed)
    → Onward (rollover si_june) l l'
    → l'.stage ≡ serving
    → l'.gone ≡ 0
    → Goes l
onward_by [] l l' path at_ whole_ = (l', path, at_, whole_)
onward_by (x ∷ xs) l l' path at_ whole_ =
    let up : l'.stage ≢ closed = λ shut. waiting-closed (sym at_ ∙ shut) in
    onward_by xs l _ (and_then path (turn x up (is_running-all x l'.gone whole_))) at_ whole_

abbrev ended : (l' : Life Fixed) × Onward (rollover si_june) life l'
ended =
    let (l₁, path, at_, whole_) = onward_by steps life life here refl refl in
    (_, and_then path (clear_runners at_))

Onward-Tripped_example :
    Tripped reason ended.0.bot.risk
    × ((new : List (OrderRequest Fixed)) × (ended.0.bot.submitted ≡ [] ++ new)
        × AllSettled waiting_tasks new)
Onward-Tripped_example = Onward-Tripped reason ended.1 (stopped, refl, refl, refl)

-- The first thread submits its buy although the breaker has tripped.
bought_late : (step (round 0 env (λ r. failure (text "timeout"))) bot).submitted ≡ buy ∷ []
unfolding step round_of go_on submit_one deliver_all Executor.submit OrderClient.submit
    OrderClient.validate text
bought_late = refl
