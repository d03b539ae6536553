-- ===== src/Risk/RiskManager/Opposite.antt =====
-- find_if and erase in on_fill of src/risk/risk_manager.cpp: which position is taken out.
use finam_tradebot.Prelude.{
  ◌≡◌, refl, sym, ap, ◌∙◌, ◌⊎◌, inl, inr, Bool, true, false, Bool-cases, Option, none, some, [],
  ◌∷◌, arith, if◌then◌else◌,
}
use finam_tradebot.Prelude.Int.{ℤ, pos, ltb_ℤ}
use finam_tradebot.Prelude.Map.{Map, lookup, eqb_ℤ, eqb_ℤ_iff, eqb_ℤ_refl}
use finam_tradebot.Double.{Double}
use finam_tradebot.Risk.RiskManager.{OpenPos, take_opposite}

module _ {V : Type 0} where
  -- The same value under every key.
  abbrev pub SameMap : Map V → Map V → Type 0
  SameMap m m' = (j : ℤ) → lookup j m ≡ lookup j m'

  -- No key stands twice.
  abbrev pub Distinct : Map V → Type 0
  Distinct [] = Unit
  Distinct ((k, v) ∷ m) = (lookup k m ≡ none) × Distinct m

module _ {W : Type 0} ⦃d : Double W⦄ where
  abbrev pub is_opposite : Bool → OpenPos W → Bool
  is_opposite buying p = if buying then ltb_ℤ p.qty (pos 0) else ltb_ℤ (pos 0) p.qty

  -- The first one has been taken out.
  pub record Taken (buying : Bool) (m : Map (OpenPos W)) (p : OpenPos W) (rest : Map (OpenPos W))
      : Type 0 where
    pub key : ℤ
    pub there : lookup key m ≡ some p
    pub opposite : is_opposite buying p ≡ true
    pub left : (j : ℤ) → lookup j rest ≡ (if eqb_ℤ key j then none else lookup j m)

  left-first :
      (k j : ℤ) (p : OpenPos W) (m : Map (OpenPos W))
      → lookup k m ≡ none
      → lookup j m ≡ (if eqb_ℤ k j then none else lookup j ((k, p) ∷ m))
  unfolding lookup
  left-first k j p m new = ground (arith, eqb_ℤ_iff k j, new)

  take-first :
      (buying : Bool) (k : ℤ) (p : OpenPos W) (m : Map (OpenPos W))
      → lookup k m ≡ none
      → is_opposite buying p ≡ true
      → Taken buying ((k, p) ∷ m) p m
  unfolding lookup
  take-first buying k p m new opp = record {
    key = k;
    there = rw (eqb_ℤ_refl k);
    opposite = opp;
    left = λ j. left-first k j p m new;
  }

  left-later :
      (k i j : ℤ) (p q : OpenPos W) (m rest : Map (OpenPos W))
      → lookup k m ≡ none
      → lookup i m ≡ some q
      → lookup j rest ≡ (if eqb_ℤ i j then none else lookup j m)
      → lookup j ((k, p) ∷ rest) ≡ (if eqb_ℤ i j then none else lookup j ((k, p) ∷ m))
  unfolding lookup
  left-later k i j p q m rest new there left =
      ground (arith, eqb_ℤ_iff k j, eqb_ℤ_iff i j, new, there, left)

  take-later :
      (buying : Bool) (k : ℤ) (p q : OpenPos W) (m rest : Map (OpenPos W))
      → lookup k m ≡ none
      → Taken buying m q rest
      → Taken buying ((k, p) ∷ m) q ((k, p) ∷ rest)
  unfolding lookup
  take-later buying k p q m rest new t = record {
    key = t.key;
    there = ground (arith, eqb_ℤ_iff k t.key, new, t.there);
    opposite = t.opposite;
    left = λ j. left-later k t.key j p q m rest new t.there (t.left j);
  }

  take-hit :
      (buying : Bool) (k : ℤ) (p : OpenPos W) (m : Map (OpenPos W))
      → is_opposite buying p ≡ true
      → take_opposite buying ((k, p) ∷ m) ≡ some (p, m)
  unfolding take_opposite
  take-hit buying k p m opp = rw opp

  take-miss :
      (buying : Bool) (k : ℤ) (p : OpenPos W) (m : Map (OpenPos W))
      → is_opposite buying p ≡ false
      → take_opposite buying m ≡ none
      → take_opposite buying ((k, p) ∷ m) ≡ none
  unfolding take_opposite
  take-miss buying k p m other nothing = rw (other, nothing)

  take-next :
      (buying : Bool) (k : ℤ) (p q : OpenPos W) (m rest : Map (OpenPos W))
      → is_opposite buying p ≡ false
      → take_opposite buying m ≡ some (q, rest)
      → take_opposite buying ((k, p) ∷ m) ≡ some (q, (k, p) ∷ rest)
  unfolding take_opposite
  take-next buying k p q m rest other found = rw (other, found)

  -- None is on the other side.
  pub record Untaken (buying : Bool) (m : Map (OpenPos W)) : Type 0 where
    pub nothing : take_opposite buying m ≡ none
    pub all_same : (j : ℤ) (p : OpenPos W) → lookup j m ≡ some p → is_opposite buying p ≡ false

  -- One has been found.
  pub record Found (buying : Bool) (m : Map (OpenPos W)) : Type 0 where
    pub position : OpenPos W
    pub rest : Map (OpenPos W)
    pub found : take_opposite buying m ≡ some (position, rest)
    pub taken : Taken buying m position rest

  pub some-opposite :
      (buying : Bool) (p q : OpenPos W)
      → some p ≡ some q
      → is_opposite buying p ≡ is_opposite buying q
  some-opposite buying p q e =
      ap (λ (o : Option (OpenPos W)). elim o [ none ↦ false | some x ↦ is_opposite buying x ]) e

  lookup-here :
      (k j : ℤ) (p : OpenPos W) (m : Map (OpenPos W))
      → eqb_ℤ k j ≡ true
      → lookup j ((k, p) ∷ m) ≡ some p
  unfolding lookup
  lookup-here k j p m same = rw same

  lookup-there :
      (k j : ℤ) (p : OpenPos W) (m : Map (OpenPos W))
      → eqb_ℤ k j ≡ false
      → lookup j ((k, p) ∷ m) ≡ lookup j m
  unfolding lookup
  lookup-there k j p m other = rw other

  all_same-cons :
      (buying : Bool) (k j : ℤ) (p q : OpenPos W) (m : Map (OpenPos W))
      → is_opposite buying p ≡ false
      → (lookup j m ≡ some q → is_opposite buying q ≡ false)
      → lookup j ((k, p) ∷ m) ≡ some q
      → is_opposite buying q ≡ false
  all_same-cons buying k j p q m other later there = elim (Bool-cases (eqb_ℤ k j)) [
    | inl same ↦ sym (some-opposite buying p q (sym (lookup-here k j p m same) ∙ there)) ∙ other
    | inr far ↦ later (sym (lookup-there k j p m far) ∙ there)
  ]

  pub take_opposite-cases :
      (buying : Bool) (m : Map (OpenPos W)) → Distinct m → Untaken buying m ⊎ Found buying m
  unfolding take_opposite lookup
  take_opposite-cases buying [] distinct =
      inl (record { nothing = refl; all_same = λ j p there. absurd (cc) })
  take_opposite-cases buying ((k, p) ∷ m) distinct = elim (Bool-cases (is_opposite buying p)) [
    | inl opp ↦ inr (record {
      position = p;
      rest = m;
      found = take-hit buying k p m opp;
      taken = take-first buying k p m distinct.0 opp;
    })
    | inr other ↦ elim (take_opposite-cases buying m distinct.1) [
      | inl u ↦ inl (record {
        nothing = take-miss buying k p m other u.nothing;
        all_same = λ j q. all_same-cons buying k j p q m other (u.all_same j q);
      })
      | inr f ↦ inr (record {
        position = f.position;
        rest = (k, p) ∷ f.rest;
        found = take-next buying k p f.position m f.rest other f.found;
        taken = take-later buying k p f.position m f.rest distinct.0 f.taken;
      })
    ]
  ]
