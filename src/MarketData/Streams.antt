-- ===== src/MarketData/Streams.antt =====
-- The loops that the subscriptions of src/market_data/market_data_client.cpp share: a stream is opened
-- and read to its end, and opened again after a wait, until the stop flag is set. What the stream
-- delivers and what the flag says are data.
pub mod Sessions
use finam_tradebot.Prelude.{ℕ, Bool, Option, none, some, List, [], ◌∷◌, ◌++◌, if◌then◌else◌}
use finam_tradebot.Double.{Double}
use finam_tradebot.Core.Backoff
use finam_tradebot.Core.Backoff.{Backoff}

-- One stream: the messages that are read before the flag is set or the stream ends, the flag after
-- `Finish`, and the flag at each round of the wait.
pub record Session (M : Type 0) : Type 0 where
  pub messages : List M
  pub stopped : Bool
  pub stop_reads : ℕ → Bool

-- What one stream leaves behind: the backoff, the state, and the calls of the callback.
pub record Fed (W S O : Type 0) : Type 0 where
  pub backoff : Backoff W
  pub state : S
  pub calls : List O

-- Calls before those that follow.
abbrev pub after_calls : {W S O : Type 0} → List O → Fed W S O → Fed W S O
after_calls out f = record f { calls = out ++ f.calls }

abbrev pub add_session : {O : Type 0} → List O → Option (List (List O)) → Option (List (List O))
add_session out none = none
add_session out (some outs) = some (out ∷ outs)

module _ {W S M O : Type 0} ⦃d : Double W⦄ where
  -- The inner loop. A step without a result is a `break`, and leaves the backoff as it is.
  unfoldable pub feed : (M → S → Option (S × List O)) → List M → Backoff W → S → Fed W S O
  feed step [] bo s = record { backoff = bo; state = s; calls = [] }
  feed step (m ∷ ms) bo s = elim (step m s) [
    | none ↦ record { backoff = bo; state = s; calls = [] }
    | some (s', out) ↦ after_calls out (feed step ms (Backoff.reset bo) s')
  ]

  -- The outer loop: the calls in each stream, in order; `none` is a wait out of fuel. `lost` is what
  -- becomes of the state when a stream has ended.
  unfoldable pub run :
      (M → S → Option (S × List O))
      → (S → S)
      → (W → W → W)
      → List (Session M)
      → Backoff W
      → S
      → Option (List (List O))
  run step lost draw [] bo s = some []
  run step lost draw (x ∷ xs) bo s =
      let f = feed step x.messages bo s in
      if x.stopped then some (f.calls ∷ []) else elim (Backoff.wait draw x.stop_reads f.backoff) [
        | none ↦ none
        | some (bo', w) ↦
            let rest = run step lost draw xs bo' (lost f.state) in
            if w.completed then add_session f.calls rest else some (f.calls ∷ [])
      ]
