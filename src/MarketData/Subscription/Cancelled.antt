-- ===== src/MarketData/Subscription/Cancelled.antt =====
-- What the thread of a subscription of src/market_data/market_data_client.cpp still does after the
-- subscription has been cancelled.
use finam_tradebot.Prelude.{
  ℕ, ◌+◌, ◌≤◌, ◌≡◌, refl, ◌∙◌, true, [], ◌∷◌, length, length-append, arith,
}
use finam_tradebot.MarketData.Subscription.{
  Phase, opening, checking, reading, ended, waiting, over, Subscription, cancel, Turn, open_stream,
  look, message, stream_ends, finish, wait_ends, wait_stops, Turns, none_yet, one_more,
}

-- The turns that are left, at most, once the flag is set.
abbrev pub rank : Phase → ℕ
rank over = 0
rank opening = 1
rank waiting = 2
rank ended = 2
rank checking = 3
rank reading = 4

-- The messages that are left, at most, once the flag is set.
abbrev pub due : Phase → ℕ
due reading = 1
due opening = 0
due checking = 0
due ended = 0
due waiting = 0
due over = 0

module _ {M : Type 0} where
  Turn-stop : {s s' : Subscription M} → Turn s s' → s'.stop ≡ s.stop
  Turn-stop (open_stream at_) = refl
  Turn-stop (look at_) = refl
  Turn-stop (message m at_) = refl
  Turn-stop (stream_ends at_) = refl
  Turn-stop (finish at_) = refl
  Turn-stop (wait_ends at_) = refl
  Turn-stop (wait_stops at_ stopped) = refl

  Turns-stop : {s : Subscription M} {n : ℕ} {s' : Subscription M} → Turns s n s' → s'.stop ≡ s.stop
  Turns-stop none_yet = refl
  Turns-stop (one_more ts t) = Turn-stop t ∙ Turns-stop ts

  Turn-rank : {s s' : Subscription M} → s.stop ≡ true → Turn s s' → rank s'.phase + 1 ≤ rank s.phase
  Turn-rank stopped (open_stream at_) = ground (arith, stopped, at_)
  Turn-rank stopped (look at_) = ground (arith, stopped, at_)
  Turn-rank stopped (message m at_) = ground (arith, at_)
  Turn-rank stopped (stream_ends at_) = ground (arith, at_)
  Turn-rank stopped (finish at_) = ground (arith, stopped, at_)
  Turn-rank stopped (wait_ends at_) = ground (arith, at_)
  Turn-rank stopped (wait_stops at_ seen) = ground (arith, at_)

  Turn-due :
      {s s' : Subscription M}
      → s.stop ≡ true
      → Turn s s'
      → length s'.calls + due s'.phase ≤ length s.calls + due s.phase
  Turn-due stopped (open_stream at_) = ground (arith, stopped, at_)
  Turn-due stopped (look at_) = ground (arith, stopped, at_)
  Turn-due {s} stopped (message m at_) = ground (arith, at_, length-append s.calls (m ∷ []))
  Turn-due stopped (stream_ends at_) = ground (arith, at_)
  Turn-due stopped (finish at_) = ground (arith, stopped, at_)
  Turn-due stopped (wait_ends at_) = ground (arith, at_)
  Turn-due stopped (wait_stops at_ seen) = ground (arith, at_)

  -- After a subscription has been cancelled, its thread takes four turns at most, and hands over one
  -- message at most, and none unless it was reading.
  pub Turns-cancel :
      (s : Subscription M) {n : ℕ} {s' : Subscription M}
      → Turns (cancel s) n s'
      → (n + rank s'.phase ≤ rank s.phase)
        × (length s'.calls + due s'.phase ≤ length s.calls + due s.phase)
  Turns-cancel s none_yet = (omega arith, omega arith)
  Turns-cancel s (one_more ts t) =
      let (turns, calls) = Turns-cancel s ts in
      let stopped = Turns-stop ts in
      (omega (arith, turns, Turn-rank stopped t), omega (arith, calls, Turn-due stopped t))
