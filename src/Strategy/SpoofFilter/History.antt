-- ===== src/Strategy/SpoofFilter/History.antt =====
-- The flags of src/strategy/spoof_filter.hpp against the history of its calls.
use finam_tradebot.Prelude.{
  ℕ, ◌+◌, ◌≤◌, ◌<◌, ◌≡◌, refl, ap, ◌⊎◌, true, Option-cases, some, inl, inr, List, [], ◌∷◌,
  if◌then◌else◌, arith,
}
use finam_tradebot.Prelude.Int.{ℤ}
use finam_tradebot.Prelude.Map
use finam_tradebot.Prelude.Map.{
  eqb_ℤ, eqb_ℤ_refl, Map, lookup, AllEntries, AllEntries-weaken, AllEntries-insert,
  AllEntries-drop_if, AllEntries-lookup,
}
use finam_tradebot.Core.Types.{Timestamp}
use finam_tradebot.Double.{Double}
use finam_tradebot.Strategy.SpoofFilter.{
  Config, SpoofFilter, LevelStats, level_stats, add32, make, round_price, on_large_cancel,
  on_large_fill, maybe_flag, is_spoofed, session_reset,
}
use finam_tradebot.Strategy.SpoofFilter.Calls.{
  Call, large_add, large_cancel, large_fill, reset_call, after, endings, was_cancelled, Counted,
  Justified, Traces, level_stats-Counted, evict-Traces, on_large_add-Traces,
}

add32-bound : (a b : ℕ) → add32 a b ≤ a + b
add32-bound a b = omega arith

module _ {W : Type 0} ⦃d : Double W⦄ where
  flag-Traces :
      (c : Config W) (cs : List (Call W)) (price : W) (ts : Timestamp) (f : SpoofFilter W)
      → Traces c cs f
      → Justified c cs (round_price price) ts
      → Traces c cs (record f { flagged = Map.insert (round_price price) ts f.flagged })
  flag-Traces c cs price ts f t just = record {
    cfg_kept = t.cfg_kept;
    counted = t.counted;
    justified =
        AllEntries-insert (Justified c cs) (round_price price) ts f.flagged just t.justified;
  }

  maybe_flag-cases :
      (price : W) (ts : Timestamp) (f : SpoofFilter W)
      → let s = level_stats (round_price price) f.stats in
        (maybe_flag price ts f ≡ f)
        ⊎ ((f.cfg.min_events ≤ add32 s.cancels s.fills)
            × (maybe_flag price ts f
                ≡ record f { flagged = Map.insert (round_price price) ts f.flagged }))
  unfolding maybe_flag
  maybe_flag-cases price ts f = ground arith

  maybe_flag-Traces :
      (c : Config W) (cs : List (Call W)) (price : W) (ts : Timestamp) (f : SpoofFilter W)
      → Traces c cs f
      → was_cancelled (round_price price) ts cs ≡ true
      → Traces c cs (maybe_flag price ts f)
  maybe_flag-Traces c cs price ts f t was =
      let s = level_stats (round_price price) f.stats in
      let few = level_stats-Counted cs (round_price price) f.stats t.counted in
      elim (maybe_flag-cases price ts f) [
        | inl same ↦ rw same t
        | inr (enough, flags) ↦
            let kept : f.cfg.min_events ≡ c.min_events =
              ap (λ (k : Config W). k.min_events) t.cfg_kept in
            rw flags (
              flag-Traces c cs price ts f t
                (was, omega (arith, enough, few, kept, add32-bound s.cancels s.fills)))
      ]

  -- One more cancel or fill.
  ended-Counted :
      (cs cs' : List (Call W)) (key : ℤ) (s : LevelStats) (m : Map LevelStats)
      → ((k : ℤ) → endings k cs' ≡ (if eqb_ℤ key k then 1 else 0) + endings k cs)
      → s.cancels + s.fills ≤ 1 + endings key cs
      → AllEntries (Counted cs) m
      → AllEntries (Counted cs') (Map.insert key s m)
  ended-Counted cs cs' key s m more bound h =
      AllEntries-insert (Counted cs') key s m (rw (more key, eqb_ℤ_refl key) bound) (
        AllEntries-weaken (Counted cs) (Counted cs') m
          (λ k (v : LevelStats) p. omega (arith, more k)) h)

  on_large_cancel-Traces :
      (c : Config W) (cs : List (Call W)) (price : W) (ts : Timestamp) (f : SpoofFilter W)
      → Traces c cs f
      → Traces c (large_cancel price ts ∷ cs) (on_large_cancel price ts f)
  unfolding on_large_cancel
  on_large_cancel-Traces c cs price ts f t =
      let key = round_price price in
      let cs' : List (Call W) = large_cancel price ts ∷ cs in
      let s = level_stats key f.stats in
      let s' : LevelStats = record s { cancels = add32 s.cancels 1 } in
      let few = level_stats-Counted cs key f.stats t.counted in
      let f' : SpoofFilter W = record f { stats = Map.insert key s' f.stats } in
      let t' : Traces c cs' f' = record {
        cfg_kept = t.cfg_kept;
        counted =
            ended-Counted cs cs' key s' f.stats (λ k. refl)
              (omega (arith, few, add32-bound s.cancels 1)) t.counted;
        justified =
            AllEntries-weaken (Justified c cs) (Justified c cs') f.flagged
              (λ k (v : Timestamp) p. ground (arith, p.0, p.1)) t.justified;
      } in
      evict-Traces c cs' ts (maybe_flag price ts f')
        (maybe_flag-Traces c cs' price ts f' t' (ground (arith, eqb_ℤ_refl key)))

  on_large_fill-Traces :
      (c : Config W) (cs : List (Call W)) (price : W) (f : SpoofFilter W)
      → Traces c cs f
      → Traces c (large_fill price ∷ cs) (on_large_fill price f)
  unfolding on_large_fill
  on_large_fill-Traces c cs price f t =
      let key = round_price price in
      let cs' : List (Call W) = large_fill price ∷ cs in
      let s = level_stats key f.stats in
      let few = level_stats-Counted cs key f.stats t.counted in
      record {
        cfg_kept = t.cfg_kept;
        counted =
            ended-Counted cs cs' key (record s { fills = add32 s.fills 1 }) f.stats (λ k. refl)
              (omega (arith, few, add32-bound s.fills 1)) t.counted;
        justified =
            AllEntries-weaken (Justified c cs) (Justified c cs') f.flagged
              (λ k (v : Timestamp) p. (p.0, omega (arith, p.1))) t.justified;
      }

  after-Traces : (c : Config W) (cs : List (Call W)) → Traces c cs (after cs c)
  unfolding make session_reset
  after-Traces c [] = record { cfg_kept = refl; counted = tt; justified = tt }
  after-Traces c (large_add price ts ∷ cs) =
      on_large_add-Traces c cs price ts (after cs c) (after-Traces c cs)
  after-Traces c (large_cancel price ts ∷ cs) =
      on_large_cancel-Traces c cs price ts (after cs c) (after-Traces c cs)
  after-Traces c (large_fill price ∷ cs) =
      on_large_fill-Traces c cs price (after cs c) (after-Traces c cs)
  after-Traces c (reset_call ∷ cs) = record {
    cfg_kept = (after-Traces c cs).cfg_kept;
    counted = tt;
    justified = tt;
  }

  is_spoofed-since :
      (price : W) (now : Timestamp) (f : SpoofFilter W)
      → is_spoofed price now f ≡ true
      → (since : Timestamp) × (lookup (round_price price) f.flagged ≡ some since)
        × (now < since + f.cfg.flag_ttl)
  unfolding is_spoofed
  is_spoofed-since price now f spoofed =
      elim (Option-cases (lookup (round_price price) f.flagged)) [
        | inl nothing ↦ absurd (ground (arith, nothing))
        | inr (since, found) ↦ (since, found, ground (arith, found))
      ]

  -- Whatever calls a new filter has got, it takes a price for spoofed only if a large order at that
  -- rounded price was cancelled less than the time to live ago and since the last reset, and if the
  -- price has had at least as many cancels and fills since that reset as the configuration asks for.
  pub is_spoofed_justified :
      (c : Config W) (cs : List (Call W)) (price : W) (now : Timestamp)
      → is_spoofed price now (after cs c) ≡ true
      → (since : Timestamp) × (was_cancelled (round_price price) since cs ≡ true)
        × (now < since + c.flag_ttl)
        × (c.min_events ≤ endings (round_price price) cs)
  is_spoofed_justified c cs price now spoofed =
      let t = after-Traces c cs in
      let (since, found, fresh) = is_spoofed-since price now (after cs c) spoofed in
      let (was, enough) =
        AllEntries-lookup (Justified c cs) (round_price price) (after cs c).flagged t.justified
          found in
      let kept : (after cs c).cfg.flag_ttl ≡ c.flag_ttl =
        ap (λ (k : Config W). k.flag_ttl) t.cfg_kept in
      (since, was, omega (arith, fresh, kept), enough)
