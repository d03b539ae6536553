-- ===== src/Strategy/SpoofFilter/Calls.antt =====
-- The history of the calls of src/strategy/spoof_filter.hpp, and what the filter keeps of it.
use finam_tradebot.Prelude.{
  ℕ, ◌+◌, ◌≤◌, ◌≡◌, Bool, true, false, ◌&&◌, ◌||◌, Option-cases, inl, inr, List, [], ◌∷◌, ◌==◌,
  if◌then◌else◌, arith,
}
use finam_tradebot.Prelude.Int.{ℤ}
use finam_tradebot.Prelude.Map
use finam_tradebot.Prelude.Map.{
  eqb_ℤ, eqb_ℤ_refl, Map, lookup, AllEntries, AllEntries-weaken, AllEntries-insert,
  AllEntries-drop_if, AllEntries-lookup,
}
use finam_tradebot.Core.Types.{Timestamp}
use finam_tradebot.Double.{Double}
use finam_tradebot.Strategy.SpoofFilter.{
  Config, SpoofFilter, LevelStats, level_stats, add32, is_stale, make, round_price, evict_old,
  on_large_add, on_large_cancel, on_large_fill, session_reset,
}

-- What the strategy calls.
pub data Call (W : Type 0) : Type 0 where
  large_add large_cancel : W → Timestamp → Call W
  large_fill : W → Call W
  reset_call : Call W

module _ {W : Type 0} ⦃d : Double W⦄ where
  -- The filter after some calls, the newest first.
  abbrev pub after : List (Call W) → Config W → SpoofFilter W
  after [] c = make c
  after (large_add price ts ∷ cs) c = on_large_add price ts (after cs c)
  after (large_cancel price ts ∷ cs) c = on_large_cancel price ts (after cs c)
  after (large_fill price ∷ cs) c = on_large_fill price (after cs c)
  after (reset_call ∷ cs) c = session_reset (after cs c)

  -- The cancels and fills of a price since the last reset.
  abbrev pub endings : ℤ → List (Call W) → ℕ
  endings k [] = 0
  endings k (large_add price ts ∷ cs) = endings k cs
  endings k (large_cancel price ts ∷ cs) =
      (if eqb_ℤ (round_price price) k then 1 else 0) + endings k cs
  endings k (large_fill price ∷ cs) = (if eqb_ℤ (round_price price) k then 1 else 0) + endings k cs
  endings k (reset_call ∷ cs) = 0

  -- The price was cancelled at a time, since the last reset.
  abbrev pub was_cancelled : ℤ → Timestamp → List (Call W) → Bool
  was_cancelled k since [] = false
  was_cancelled k since (large_add price ts ∷ cs) = was_cancelled k since cs
  was_cancelled k since (large_cancel price ts ∷ cs) =
      (eqb_ℤ (round_price price) k && ts == since) || was_cancelled k since cs
  was_cancelled k since (large_fill price ∷ cs) = was_cancelled k since cs
  was_cancelled k since (reset_call ∷ cs) = false

  abbrev pub Counted : List (Call W) → ℤ → LevelStats → Type 0
  Counted cs k s = s.cancels + s.fills ≤ endings k cs

  abbrev pub Justified : Config W → List (Call W) → ℤ → Timestamp → Type 0
  Justified c cs k since = (was_cancelled k since cs ≡ true) × (c.min_events ≤ endings k cs)

  pub record Traces (c : Config W) (cs : List (Call W)) (f : SpoofFilter W) : Type 0 where
    pub cfg_kept : f.cfg ≡ c
    pub counted : AllEntries (Counted cs) f.stats
    pub justified : AllEntries (Justified c cs) f.flagged

  pub level_stats-Counted :
      (cs : List (Call W)) (k : ℤ) (m : Map LevelStats)
      → AllEntries (Counted cs) m
      → Counted cs k (level_stats k m)
  unfolding level_stats
  level_stats-Counted cs k m h = elim (Option-cases (lookup k m)) [
    | inl nothing ↦ rw (nothing, level_stats) (omega arith)
    | inr (s, found) ↦ rw (found, level_stats) (AllEntries-lookup (Counted cs) k m h found)
  ]

  pub evict-Traces :
      (c : Config W) (cs : List (Call W)) (now : Timestamp) (f : SpoofFilter W)
      → Traces c cs f
      → Traces c cs (evict_old now f)
  unfolding evict_old
  evict-Traces c cs now f t = record {
    cfg_kept = t.cfg_kept;
    counted = AllEntries-drop_if (Counted cs) (is_stale f.cfg.spoof_window now) f.stats t.counted;
    justified = t.justified;
  }

  pub on_large_add-Traces :
      (c : Config W) (cs : List (Call W)) (price : W) (ts : Timestamp) (f : SpoofFilter W)
      → Traces c cs f
      → Traces c (large_add price ts ∷ cs) (on_large_add price ts f)
  unfolding on_large_add
  on_large_add-Traces c cs price ts f t =
      let key = round_price price in
      let s = level_stats key f.stats in
      let s' : LevelStats = record s { adds = add32 s.adds 1; last_add_ts = ts } in
      evict-Traces c (large_add price ts ∷ cs) ts (record f { stats = Map.insert key s' f.stats })
        (record {
          cfg_kept = t.cfg_kept;
          counted =
              AllEntries-insert (Counted cs) key s' f.stats
                (level_stats-Counted cs key f.stats t.counted) t.counted;
          justified = t.justified;
        })
