-- ===== src/MarketData/Quotes/Delivered.antt =====
-- What the callbacks of the quote and bar subscriptions get.
use finam_tradebot.Prelude.{
  ◌≡◌, refl, ap, Bool-cases, inl, inr, none, some, List, [], ◌∷◌, ◌++◌, map, if◌then◌else◌, arith,
}
use finam_tradebot.Prelude.Text.{Text, rfind}
use finam_tradebot.Core.Types.{Symbol, to_string, Quote, Bar}
use finam_tradebot.Core.Backoff.{Backoff, reset, make, default_config}
use finam_tradebot.Double.{Double}
use finam_tradebot.MarketData.Convert.{symbol_from_string}
use finam_tradebot.MarketData.Convert.Symbols.{symbol_from_string-to_string}
use finam_tradebot.MarketData.Streams.{Session, feed}
use finam_tradebot.MarketData.Streams.Sessions.{AllSessions, run-AllSessions}
use finam_tradebot.MarketData.Quotes.{
  QuoteMessage, ProtoBar, is_failure, quote_from_proto, quote_step, subscribe_quotes,
  bar_from_proto, bar_step, subscribe_bars,
}

module _ {W : Type 0} ⦃d : Double W⦄ where
  -- The quotes of the messages before the first failure.
  abbrev pub quotes_before : List QuoteMessage → List (Quote W)
  quotes_before [] = []
  quotes_before (m ∷ ms) =
      let later = quotes_before ms in
      if is_failure m.error_code then [] else map quote_from_proto m.quote ++ later

  feed-quotes_before :
      (ms : List QuoteMessage) (bo : Backoff W)
      → (feed quote_step ms bo tt).calls ≡ quotes_before ms
  unfolding feed quote_step
  feed-quotes_before [] bo = refl
  feed-quotes_before (m ∷ ms) bo = elim (Bool-cases (is_failure m.error_code)) [
    | inl fails ↦ rw (fails, feed)
    | inr fine ↦
        rw (fine, feed)
          (ap (λ later. map quote_from_proto m.quote ++ later) (feed-quotes_before ms (reset bo)))
  ]

  -- A subscription to quotes runs to its end. In each stream the callback gets the quotes of the
  -- messages before the first that reports an error, in their order.
  pub subscribe-quotes_before :
      (draw : W → W → W) (sessions : List (Session QuoteMessage))
      → (outs : List (List (Quote W))) × (subscribe_quotes draw sessions ≡ some outs)
        × AllSessions (λ x out. out ≡ quotes_before x.messages) sessions outs
  unfolding subscribe_quotes make default_config
  subscribe-quotes_before draw sessions =
      run-AllSessions quote_step (λ s. tt) draw (λ x out. out ≡ quotes_before x.messages)
        (λ s. Unit) (λ s. tt) (λ x bo s start. feed-quotes_before x.messages bo) sessions
        (make default_config) tt (omega arith) tt

  abbrev pub bars_in : Symbol → Text → List (List ProtoBar) → List (Bar W)
  bars_in symbol tf [] = []
  bars_in symbol tf (bs ∷ ms) = map (bar_from_proto symbol tf) bs ++ bars_in symbol tf ms

  feed-bars_in :
      (symbol : Symbol) (tf : Text) (ms : List (List ProtoBar)) (bo : Backoff W)
      → symbol_from_string (to_string symbol) ≡ symbol
      → (feed (bar_step symbol tf) ms bo tt).calls ≡ bars_in symbol tf ms
  unfolding feed bar_step
  feed-bars_in symbol tf [] bo same = refl
  feed-bars_in symbol tf (bs ∷ ms) bo same = rw (same, feed-bars_in symbol tf ms (reset bo) same)

  -- A subscription to bars runs to its end. In each stream the callback gets every bar, in order,
  -- under the symbol that was subscribed to, if its board has no "@".
  pub subscribe-bars_in :
      (symbol : Symbol) (tf : Text) (draw : W → W → W) (sessions : List (Session (List ProtoBar)))
      → rfind b'@' symbol.security_board ≡ none
      → (outs : List (List (Bar W))) × (subscribe_bars symbol tf draw sessions ≡ some outs)
        × AllSessions (λ x out. out ≡ bars_in symbol tf x.messages) sessions outs
  unfolding subscribe_bars make default_config
  subscribe-bars_in symbol tf draw sessions plain =
      run-AllSessions (bar_step symbol tf) (λ s. tt) draw
        (λ x out. out ≡ bars_in symbol tf x.messages) (λ s. Unit) (λ s. tt)
        (λ x bo s start.
          feed-bars_in symbol tf x.messages bo (symbol_from_string-to_string symbol plain))
        sessions (make default_config) tt (omega arith) tt
