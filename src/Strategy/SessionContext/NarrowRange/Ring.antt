-- ===== src/Strategy/SessionContext/NarrowRange/Ring.antt =====
-- The ring of daily ranges of src/strategy/session_context.hpp, against a history of ranges.
use Prim.Native.Nat.{min}
use finam_tradebot.Prelude.{
  get_or-set_self, get_or-set_ne, ◌∙◌, ℕ, zero, suc, ◌+◌, ◌-◌, ◌%◌, ◌<◌, ◌≡◌, ◌≢◌, refl, List, [],
  ◌∷◌, arith, length, get_or, length-set,
}
use finam_tradebot.Double.{Double, nought}
use finam_tradebot.Strategy.SessionContext.{
  SessionContext, Config, make, push_range, update_atr, update_nr7, range_back,
}

module _ {W : Type 0} ⦃d : Double W⦄ where
  -- The ring holds the newest ranges of a history.
  pub record Holds (h : List W) (s : SessionContext W) : Type 0 where
    pub size : length s.daily_ranges ≡ 30
    pub idx_in : s.daily_idx < 30
    pub count : s.daily_count ≡ min (length h) 30
    pub newest : (back : ℕ) → back < s.daily_count → range_back s back ≡ get_or h back nought

  pub make-Holds : (c : Config W) → Holds [] (make c)
  unfolding make
  make-Holds c = record {
    size = refl;
    idx_in = omega arith;
    count = omega arith;
    newest = λ back h. elim h [ ];
  }

  back_zero :
      (range : W) (h : List W) (s : SessionContext W)
      → Holds h s
      → range_back (push_range range s) 0 ≡ range
  unfolding range_back push_range
  back_zero range h s v =
      let same : ((s.daily_idx + 1) % 30 + 30 - 1 - 0) % 30 ≡ s.daily_idx =
        omega (arith, v.idx_in) in
      rw same
        (get_or-set_self s.daily_ranges s.daily_idx range nought (omega (arith, v.idx_in, v.size)))

  back_suc :
      (range : W) (h : List W) (s : SessionContext W) (back : ℕ)
      → Holds h s
      → back < 29
      → range_back (push_range range s) (suc back) ≡ range_back s back
  unfolding range_back push_range
  back_suc range h s back v small =
      let moved : ((s.daily_idx + 1) % 30 + 30 - 1 - suc back) % 30
          ≡ (s.daily_idx + 30 - 1 - back) % 30 =
        omega (arith, v.idx_in) in
      let other : s.daily_idx ≢ (s.daily_idx + 30 - 1 - back) % 30 = omega (arith, v.idx_in) in
      rw moved (get_or-set_ne s.daily_ranges range nought other)

  pushed_count :
      (range : W) (h : List W) (s : SessionContext W)
      → Holds h s
      → (push_range range s).daily_count ≡ min (suc (length h)) 30
  unfolding push_range
  pushed_count range h s v = ground (arith, v.count)

  pushed_below :
      (range : W) (h : List W) (s : SessionContext W) (b : ℕ)
      → Holds h s
      → suc b < (push_range range s).daily_count
      → (b < s.daily_count) × (b < 29)
  pushed_below range h s b v small = omega (arith, v.count, pushed_count range h s v)

  pub push_range-Holds :
      (range : W) (h : List W) (s : SessionContext W)
      → Holds h s
      → Holds (range ∷ h) (push_range range s)
  push_range-Holds range h s v = record {
    size = unfold push_range in (length-set s.daily_ranges s.daily_idx range ∙ v.size);
    idx_in = unfold push_range in omega arith;
    count = pushed_count range h s v;
    newest = λ back.
        elim back
          as (λ b.
            b < (push_range range s).daily_count
            → range_back (push_range range s) b ≡ get_or (range ∷ h) b nought) [
              | zero ↦ λ _. back_zero range h s v
              | suc b ↦ λ small.
                  let (below, near) = pushed_below range h s b v small in
                  back_suc range h s b v near ∙ v.newest b below
            ];
  }

  Holds-same :
      (h : List W) (s t : SessionContext W)
      → t.daily_ranges ≡ s.daily_ranges
      → t.daily_idx ≡ s.daily_idx
      → t.daily_count ≡ s.daily_count
      → Holds h s
      → Holds h t
  unfolding range_back
  Holds-same h s t r i c v = record {
    size = rw r v.size;
    idx_in = rw i v.idx_in;
    count = rw c v.count;
    newest = λ back small. rw (r, i) (v.newest back (rw c at small));
  }

  pub update_atr-Holds :
      (range : W) (h : List W) (s : SessionContext W) → Holds h s → Holds h (update_atr range s)
  unfolding update_atr
  update_atr-Holds range h s v =
      Holds-same h s (update_atr range s) (ground arith) (ground arith) (ground arith) v

  pub update_nr7-Holds : (h : List W) (s : SessionContext W) → Holds h s → Holds h (update_nr7 s)
  unfolding update_nr7
  update_nr7-Holds h s v =
      Holds-same h s (update_nr7 s) (ground arith) (ground arith) (ground arith) v
