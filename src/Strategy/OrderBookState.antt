-- ===== src/Strategy/OrderBookState.antt =====
-- src/strategy/order_book_state.hpp: the multi-level order flow imbalance with time decay.
use finam_tradebot.Prelude.{
  ℕ, ◌-◌, Bool, ◌||◌, List, [], ◌∷◌, map, set, get_or, replicate, ◌==◌, ltb, if◌then◌else◌,
}
use finam_tradebot.Prelude.Int.{ℤ, pos, ltb_ℤ, pos_part}
use finam_tradebot.Core.Types.{Timestamp, second}
use finam_tradebot.Double.{Double, ◌⊕◌, ◌⊖◌, ◌⊗◌, ◌⊘◌, ◌≺◌, ◌≼◌, nought, whole, decimal_lit}
use finam_tradebot.Strategy.OfiTypes.{
  book_levels, MlofiResult, no_mlofi, Vote, BookLevelEvent, long, short, neutral,
}

pub record Config (W : Type 0) : Type 0 where
  pub level_decay : W
  pub time_decay_per_sec : W
  pub signal_threshold : W

pub record OrderBookState (W : Type 0) : Type 0 where
  pub cfg : Config W
  pub weights : List W
  pub level_scores : List W
  pub score : W
  pub last_event_ts : Timestamp
  pub last_result : MlofiResult W

unfoldable pub out_of_range : ℤ → Bool
out_of_range level = ltb_ℤ level (pos 0) || ltb_ℤ (pos (book_levels - 1)) level

module _ {W : Type 0} ⦃d : Double W⦄ where
  unfoldable pub default_config : Config W
  default_config = record {
    level_decay = decimal_lit 5 1;
    time_decay_per_sec = decimal_lit 9 1;
    signal_threshold = whole 3;
  }

  -- `std::accumulate` from 0.0.
  abbrev pub accumulate : W → List W → W
  accumulate acc [] = acc
  accumulate acc (x ∷ xs) = accumulate (acc ⊕ x) xs

  -- The raw weights of levels 0 to 4, then each divided by their sum.
  raw_weight : Config W → ℕ → W
  raw_weight c k = d.exp (d.neg c.level_decay ⊗ d.of_ℤ (pos k))

  unfoldable pub precompute_weights : Config W → List W
  unfolding raw_weight
  precompute_weights c =
      let raw = map (raw_weight c) (0 ∷ 1 ∷ 2 ∷ 3 ∷ 4 ∷ []) in
      map (λ w. w ⊘ accumulate nought raw) raw

  unfoldable pub make : Config W → OrderBookState W
  make c = record {
    cfg = c;
    weights = precompute_weights c;
    level_scores = replicate book_levels nought;
    score = nought;
    last_event_ts = 0;
    last_result = no_mlofi;
  }

  -- `duration<double>(now - last).count()`; the difference may be negative.
  unfoldable pub seconds_between : Timestamp → Timestamp → W
  seconds_between last now =
      if ltb now last
      then d.neg (d.of_ℤ (pos (last - now)) ⊘ d.of_ℤ (pos second))
      else d.of_ℤ (pos (now - last)) ⊘ d.of_ℤ (pos second)

  unfoldable pub apply_time_decay : Timestamp → OrderBookState W → OrderBookState W
  apply_time_decay now s =
      if s.last_event_ts == 0
      then record s { last_event_ts = now }
      else (let dt_sec = seconds_between s.last_event_ts now in
          if dt_sec ≼ nought
          then s
          else (let decay = d.pow s.cfg.time_decay_per_sec dt_sec in
              record s {
                score = s.score ⊗ decay;
                level_scores = map (λ ls. ls ⊗ decay) s.level_scores;
                last_event_ts = now;
              }))

  unfoldable pub build_result : Timestamp → OrderBookState W → MlofiResult W
  build_result ts s = record { score = s.score; levels = s.level_scores; ts = ts }

  unfoldable pub ofi_delta : BookLevelEvent W → W
  ofi_delta e = (e.new_bid_size ⊖ e.old_bid_size) ⊖ (e.new_ask_size ⊖ e.old_ask_size)

  -- The update of one level, after the decay.
  unfoldable pub add_delta : BookLevelEvent W → OrderBookState W → OrderBookState W
  add_delta e s =
      let k = pos_part e.level in
      let delta = ofi_delta e in
      record s {
        level_scores = set s.level_scores k (get_or s.level_scores k nought ⊕ delta);
        score = s.score ⊕ get_or s.weights k nought ⊗ delta;
      }

  unfoldable pub on_book_event : BookLevelEvent W → OrderBookState W → OrderBookState W
  on_book_event e s =
      if out_of_range e.level
      then s
      else (let s' = add_delta e (apply_time_decay e.ts s) in
          record s' { last_result = build_result e.ts s' })

  unfoldable pub decay_tick : Timestamp → OrderBookState W → OrderBookState W
  decay_tick now s =
      let s' = apply_time_decay now s in
      record s' {
        last_result = record {
          score = s'.last_result.score;
          levels = s'.last_result.levels;
          ts = now;
        };
      }

  unfoldable pub vote : OrderBookState W → Vote
  vote s =
      if s.cfg.signal_threshold ≺ s.score
      then long
      else (if s.score ≺ d.neg s.cfg.signal_threshold then short else neutral)

  unfoldable pub reset : OrderBookState W → OrderBookState W
  reset s = record s {
    score = nought;
    level_scores = map (λ _. nought) s.level_scores;
    last_event_ts = 0;
    last_result = no_mlofi;
  }
