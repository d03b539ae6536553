-- ===== src/MarketData/Subscription.antt =====
-- A subscription of src/market_data/market_data_client.hpp and its thread in
-- src/market_data/market_data_client.cpp, in small steps: the handle sets the stop flag when it is
-- destroyed, and nobody waits for the thread, which is detached.
pub mod Cancelled
use finam_tradebot.Prelude.{ℕ, ◌+◌, ◌≡◌, Bool, true, false, List, [], ◌∷◌, ◌++◌, if◌then◌else◌}

-- Where the thread is: at the test of the outer loop, at the test of the inner loop, in `Read`, after
-- the inner loop, in the wait of the backoff, or returned.
pub data Phase : Type 0 where
  opening checking reading ended waiting over : Phase

-- `stop` is the flag that the thread and the handle share, and `calls` are the messages that have
-- been handed to the callback.
pub record Subscription (M : Type 0) : Type 0 where
  pub phase : Phase
  pub stop : Bool
  pub calls : List M

module _ {M : Type 0} where
  abbrev pub subscribe : Subscription M
  subscribe = record { phase = opening; stop = false; calls = [] }

  -- The destructor of the handle.
  abbrev pub cancel : Subscription M → Subscription M
  cancel s = record s { stop = true }

  abbrev pub go_to : Phase → Subscription M → Subscription M
  go_to phase s = record s { phase = phase }

  -- What the thread does next. A message with an error is the end of its stream. The wait may be
  -- over before the flag is set, or see it.
  pub data Turn (s : Subscription M) : Subscription M → Type 0 where
    open_stream : s.phase ≡ opening → Turn s (go_to (if s.stop then over else checking) s)
    look : s.phase ≡ checking → Turn s (go_to (if s.stop then ended else reading) s)
    message :
        (m : M)
        → s.phase ≡ reading
        → Turn s (record s { phase = checking; calls = s.calls ++ (m ∷ []) })
    stream_ends : s.phase ≡ reading → Turn s (go_to ended s)
    finish : s.phase ≡ ended → Turn s (go_to (if s.stop then opening else waiting) s)
    wait_ends : s.phase ≡ waiting → Turn s (go_to opening s)
    wait_stops : s.phase ≡ waiting → s.stop ≡ true → Turn s (go_to over s)

  -- Some turns of the thread, and how many.
  pub data Turns (s : Subscription M) : ℕ → Subscription M → Type 0 where
    none_yet : Turns s 0 s
    one_more : {n : ℕ} {s' s'' : Subscription M} → Turns s n s' → Turn s' s'' → Turns s (n + 1) s''
