-- ===== src/Tests/Orders.antt =====
-- Runs of the order client, alone and in front of the strategy.
use finam_tradebot.Prelude.{◌≡◌, refl, ◌↔◌, none, some, [], ◌∷◌, ◌++◌}
use finam_tradebot.Prelude.Int.{pos, ◌+ℤ◌, ◌-ℤ◌}
use finam_tradebot.Prelude.Map.{lookup}
use finam_tradebot.Prelude.Text.{text}
use finam_tradebot.Core.Types.{Signal, ok, error, OrderRequest, invalid_quantity}
use finam_tradebot.Double.Fixed.{Fixed, fixed_double}
use finam_tradebot.Risk.RiskManager.{reply}
use finam_tradebot.Order.OrderClient.{
  OrderState, PlaceReply, ProtoStatus, StreamOrder, validate, submit, placed, prev_filled, print_ℤ,
  map_status, on_stream_order, commit, quantity_of,
}
use finam_tradebot.Order.OrderClient.Races.{id_of, fill_twice_lem}
use finam_tradebot.Order.OrderClient.Submit.{IsSent, submit_ok}
use finam_tradebot.Order.OrderClient.Deltas.{follow, reported, reported_lem}
use finam_tradebot.Strategy.Confluence
use finam_tradebot.Strategy.Confluence.{
  Confluence, check_exit, on_order_update, try_enter, entry_blocked, current_vote, confluence,
  build_entry,
}
use finam_tradebot.Strategy.OfiTypes.{is_strong, is_long, is_short}
use finam_tradebot.Strategy.OrderBookState
use finam_tradebot.Strategy.TradeFlow
use finam_tradebot.Strategy.SpoofFilter
use finam_tradebot.Strategy.SessionContext
use finam_tradebot.Strategy.Confluence.Fills.{after_stream, stream_fill_unwatched}
use finam_tradebot.Strategy.Runner.{request_of}
use finam_tradebot.Strategy.Runner.Sizing.{half_contract_refused}
use finam_tradebot.Tests.Fixtures.{num, account, client, bullish, streamed_order}
use finam_tradebot.Tests.Sessions.{entry, bullish_enters}

-- An exchange that fills every order at once, and one that refuses.
abbrev filling : PlaceReply
filling = record { order_id = text "X1"; status = ProtoStatus.filled }

abbrev request : OrderRequest Fixed
request = request_of account entry

abbrev two : OrderRequest Fixed
two = record request { quantity = pos 2 }

abbrev part : StreamOrder
part = streamed_order ProtoStatus.partially_filled (text "2")

abbrev whole_order : StreamOrder
whole_order = streamed_order ProtoStatus.filled (text "5")

submit_ok_example :
    ((submit (λ r. reply filling) 7 two client).1 ≡ ok (pos 1))
    ↔ IsSent (λ r. reply filling) 7 two client (pos 1)
submit_ok_example = submit_ok (λ r. reply filling) 7 two client (pos 1)

two_sent : (submit (λ r. reply filling) 7 two client).1 ≡ ok (pos 1)
unfolding submit validate request_of text build_entry
two_sent = refl

abbrev first_state : OrderState Fixed
first_state = placed (pos 1) two filling 7

reported_lem_example :
    let ss = first_state ∷ record first_state { qty_filled = pos 2 } ∷ [] in
    reported (pos 1) ss client
    ≡ prev_filled (pos 1) (follow ss client) -ℤ prev_filled (pos 1) client
reported_lem_example =
    reported_lem (pos 1) (first_state ∷ record first_state { qty_filled = pos 2 } ∷ []) client

stream_fill_unwatched_example :
    check_exit (num 1) (after_stream whole_order 7 (client, bullish)).1 ≡ none
unfolding map_status Confluence.make
stream_fill_unwatched_example =
    stream_fill_unwatched whole_order 7 client bullish (num 1) refl refl refl

half_contract_refused_example :
    submit (λ r. reply filling) 7 request client
    ≡ (client, error invalid_quantity (text "quantity must be > 0, got " ++ print_ℤ (pos 0)), [])
unfolding Confluence.make SessionContext.make text
half_contract_refused_example =
    half_contract_refused (λ r. reply filling) 7 10_000_000_000 account bullish entry client refl
      refl refl refl bullish_enters

abbrev larger : Confluence Fixed
larger = record bullish { cfg = record (bullish.cfg) { base_qty = pos 4 } }

abbrev larger_entry : Signal Fixed
larger_entry = build_entry (current_vote larger) (record larger { last_signal_ts = 10_000_000_000 })

larger_enters : (try_enter 10_000_000_000 larger).1 ≡ some larger_entry
unfolding try_enter entry_blocked current_vote confluence OrderBookState.vote OrderBookState.make
    OrderBookState.default_config TradeFlow.vote TradeFlow.normalized_tfi TradeFlow.volumes
    TradeFlow.make TradeFlow.default_config Confluence.make SpoofFilter.make SpoofFilter.is_spoofed
    is_strong is_long is_short SessionContext.allows_long SessionContext.allows_short ◌+ℤ◌ lookup
larger_enters = refl

fill_twice_lem_example :
    let (c₁, first) = on_stream_order whole_order 7 client in
    let (c₂, answer) = commit (pos 0) (placed (id_of whole_order) two filling 8) c₁ in
    let (c₃, second) = on_stream_order whole_order 9 c₂ in
    (first.qty_filled ≡ quantity_of (fixed_double.stod whole_order.executed_quantity))
    × (first.symbol.security_code ≡ [])
    × (answer.qty_filled ≡ pos 0 -ℤ pos 0)
    × (second.qty_filled ≡ quantity_of (fixed_double.stod whole_order.executed_quantity))
    × (second.symbol ≡ two.symbol)
unfolding lookup
fill_twice_lem_example = fill_twice_lem whole_order two filling 7 8 9 (pos 0) client refl
