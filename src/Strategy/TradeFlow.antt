-- ===== src/Strategy/TradeFlow.antt =====
-- src/strategy/trade_flow_analyzer.hpp: trade flow imbalance over a window, cumulative volume delta.
pub mod Windows
use finam_tradebot.Prelude.{ℕ, ◌+◌, ◌*◌, Bool, List, [], ◌∷◌, ◌++◌, length, ltb, if◌then◌else◌}
use finam_tradebot.Prelude.Int.{pos}
use finam_tradebot.Core.Types.{Timestamp, millisecond}
use finam_tradebot.Double.{Double, ◌⊕◌, ◌⊖◌, ◌⊗◌, ◌⊘◌, ◌≺◌, nought, whole, decimal_lit}
use finam_tradebot.Strategy.OfiTypes.{TfiResult, no_tfi, Vote, TradeEvent, long, short, neutral}

pub record Config (W : Type 0) : Type 0 where
  -- In nanoseconds.
  pub tfi_window : ℕ
  pub velocity_window : ℕ
  pub large_print_mult : W
  pub avg_volume_period : ℕ
  pub signal_threshold : W

pub record TradeFlowAnalyzer (W : Type 0) : Type 0 where
  pub cfg : Config W
  pub cvd : W
  -- The front of a deque is the head of its list.
  pub window : List (TradeEvent W)
  pub velocity_window : List Timestamp
  pub recent_volumes : List W
  pub last_result : TfiResult W

-- `while (!d.empty() && test(d.front())) d.pop_front()`.
module _ {A : Type 0} where
  unfoldable pub pop_while : (A → Bool) → List A → List A
  pop_while test [] = []
  pop_while test (x ∷ xs) = if test x then pop_while test xs else x ∷ xs

-- `ts < now - span`, with the subtraction moved to the other side.
unfoldable pub is_older : Timestamp → ℕ → Timestamp → Bool
is_older now span ts = ltb (ts + span) now

module _ {W : Type 0} ⦃d : Double W⦄ where
  unfoldable pub default_config : Config W
  default_config = record {
    tfi_window = 5_000 * millisecond;
    velocity_window = 1_000 * millisecond;
    large_print_mult = whole 4;
    avg_volume_period = 100;
    signal_threshold = decimal_lit 3 1;
  }

  unfoldable pub make : Config W → TradeFlowAnalyzer W
  make c = record {
    cfg = c;
    cvd = nought;
    window = [];
    velocity_window = [];
    recent_volumes = [];
    last_result = no_tfi;
  }

  unfoldable pub evict_old : Timestamp → TradeFlowAnalyzer W → TradeFlowAnalyzer W
  evict_old now s = record s {
    window = pop_while (λ t. is_older now s.cfg.tfi_window t.ts) s.window;
    velocity_window =
        pop_while (is_older now s.cfg.velocity_window) s.velocity_window ++ (now ∷ []);
  }

  unfoldable pub pop_front_above : ℕ → List W → List W
  pop_front_above n [] = []
  pop_front_above n (v ∷ vs) = if ltb n (length (v ∷ vs)) then vs else v ∷ vs

  unfoldable pub update_avg_volume : W → TradeFlowAnalyzer W → TradeFlowAnalyzer W
  update_avg_volume vol s = record s {
    recent_volumes = pop_front_above s.cfg.avg_volume_period (s.recent_volumes ++ (vol ∷ []));
  }

  -- The two sums of the loop, in the order of the window.
  unfoldable pub volumes : W → W → List (TradeEvent W) → W × W
  volumes buy_vol sell_vol [] = (buy_vol, sell_vol)
  volumes buy_vol sell_vol (t ∷ ts) =
      volumes (if t.is_buy then buy_vol ⊕ t.volume else buy_vol)
        (if t.is_buy then sell_vol else sell_vol ⊕ t.volume) ts

  unfoldable pub normalized_tfi : TradeFlowAnalyzer W → W
  normalized_tfi s =
      let v = volumes nought nought s.window in
      let total = v.0 ⊕ v.1 in if total ≺ decimal_lit 1 9 then nought else (v.0 ⊖ v.1) ⊘ total

  unfoldable pub accumulate : W → List W → W
  accumulate acc [] = acc
  accumulate acc (x ∷ xs) = accumulate (acc ⊕ x) xs

  unfoldable pub avg_volume : TradeFlowAnalyzer W → W
  avg_volume s = average s.recent_volumes
    where
      average : List W → W
      average [] = whole 1
      average (x ∷ xs) = accumulate nought (x ∷ xs) ⊘ d.of_ℤ (pos (length (x ∷ xs)))

  unfoldable pub build_result : TradeEvent W → TradeFlowAnalyzer W → TradeFlowAnalyzer W
  build_result e s = record s {
    last_result = record {
      tfi = normalized_tfi s;
      cvd = s.cvd;
      velocity = d.of_ℤ (pos (length s.velocity_window));
      large_print = avg_volume s ⊗ s.cfg.large_print_mult ≺ e.volume;
      ts = e.ts;
    };
  }

  unfoldable pub signed_volume : TradeEvent W → W
  signed_volume e = if e.is_buy then e.volume else d.neg e.volume

  unfoldable pub on_trade : TradeEvent W → TradeFlowAnalyzer W → TradeFlowAnalyzer W
  on_trade e s =
      let s₁ = evict_old e.ts s in
      let s₂ = record s₁ { window = s₁.window ++ (e ∷ []); cvd = s₁.cvd ⊕ signed_volume e } in
      build_result e (update_avg_volume e.volume s₂)

  unfoldable pub session_reset : TradeFlowAnalyzer W → TradeFlowAnalyzer W
  session_reset s = record s { cvd = nought; window = []; velocity_window = [] }

  unfoldable pub vote : TradeFlowAnalyzer W → Vote
  vote s =
      let norm = normalized_tfi s in
      if s.cfg.signal_threshold ≺ norm
      then long
      else (if norm ≺ d.neg s.cfg.signal_threshold then short else neutral)
