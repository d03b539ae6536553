-- ===== src/Prelude/Map.antt =====
-- `std::unordered_map` with an integer key, as an association list. The order of the list stands for
-- the order of iteration, which the container leaves open.
use finam_tradebot.Prelude.{
  ◌≡◌, refl, ◌↔◌, Bool, true, false, Option, none, some, List, [], ◌∷◌, arith, ◌==◌, if◌then◌else◌,
}
use finam_tradebot.Prelude.Int.{ℤ, pos, negsuc}

abbrev pub eqb_ℤ : ℤ → ℤ → Bool
eqb_ℤ (pos a) (pos b) = a == b
eqb_ℤ (pos a) (negsuc b) = false
eqb_ℤ (negsuc a) (pos b) = false
eqb_ℤ (negsuc a) (negsuc b) = a == b

pub eqb_ℤ_iff : (a b : ℤ) → (eqb_ℤ a b ≡ true) ↔ (a ≡ b)
eqb_ℤ_iff a b = ground arith

pub eqb_ℤ_refl : (a : ℤ) → eqb_ℤ a a ≡ true
eqb_ℤ_refl a = (eqb_ℤ_iff a a).1 refl

abbrev pub Map : Type 0 → Type 0
Map V = List (ℤ × V)

module _ {V : Type 0} where
  unfoldable pub lookup : ℤ → Map V → Option V
  lookup k [] = none
  lookup k ((j, v) ∷ m) = if eqb_ℤ j k then some v else lookup k m

  -- `m[k] = v`.
  unfoldable pub insert : ℤ → V → Map V → Map V
  insert k v [] = (k, v) ∷ []
  insert k v ((j, w) ∷ m) = if eqb_ℤ j k then (k, v) ∷ m else (j, w) ∷ insert k v m

  -- Drops the entries whose value passes a test.
  unfoldable pub drop_if : (V → Bool) → Map V → Map V
  drop_if test [] = []
  drop_if test ((j, w) ∷ m) = if test w then drop_if test m else (j, w) ∷ drop_if test m

  pub lookup-insert :
      (k j : ℤ) (v : V) (m : Map V)
      → lookup j (insert k v m) ≡ (if eqb_ℤ k j then some v else lookup j m)
  unfolding lookup insert
  lookup-insert k j v [] = refl
  lookup-insert k j v ((i, w) ∷ m) =
      ground (arith, eqb_ℤ_iff k j, eqb_ℤ_iff i k, eqb_ℤ_iff i j, lookup-insert k j v m)

  abbrev pub AllValues : (V → Type 0) → Map V → Type 0
  AllValues P [] = Unit
  AllValues P ((j, w) ∷ m) = P w × AllValues P m

  pub AllValues-insert :
      (P : V → Type 0) (k : ℤ) (v : V) (m : Map V)
      → P v
      → AllValues P m
      → AllValues P (insert k v m)
  unfolding insert
  AllValues-insert P k v [] pv h = (pv, tt)
  AllValues-insert P k v ((j, w) ∷ m) pv h = ground (arith, AllValues-insert P k v m pv h.1)

  pub AllValues-lookup :
      (P : V → Type 0) (k : ℤ) (m : Map V) {v : V} → AllValues P m → lookup k m ≡ some v → P v
  unfolding lookup
  AllValues-lookup P k [] {v} h e = absurd (cc)
  AllValues-lookup P k ((j, w) ∷ m) {v} h e = ground (arith, AllValues-lookup P k m {v = v} h.1)

  -- What is left has failed the test.
  pub AllValues-drop_if :
      (test : V → Bool) (m : Map V) → AllValues (λ v. test v ≡ false) (drop_if test m)
  unfolding drop_if
  AllValues-drop_if test [] = tt
  AllValues-drop_if test ((j, w) ∷ m) = ground (arith, AllValues-drop_if test m)

-- What holds of every entry, with its key.
abbrev pub AllEntries : {V : Type 0} → (ℤ → V → Type 0) → Map V → Type 0
AllEntries P [] = Unit
AllEntries P ((k, v) ∷ m) = P k v × AllEntries P m

module _ {V : Type 0} where
  pub AllEntries-weaken :
      (P Q : ℤ → V → Type 0) (m : Map V)
      → ((k : ℤ) (v : V) → P k v → Q k v)
      → AllEntries P m
      → AllEntries Q m
  AllEntries-weaken P Q [] f h = tt
  AllEntries-weaken P Q ((k, v) ∷ m) f (p, h) = (f k v p, AllEntries-weaken P Q m f h)

  pub AllEntries-insert :
      (P : ℤ → V → Type 0) (k : ℤ) (v : V) (m : Map V)
      → P k v
      → AllEntries P m
      → AllEntries P (insert k v m)
  unfolding insert
  AllEntries-insert P k v [] p h = (p, tt)
  AllEntries-insert P k v ((j, w) ∷ m) p h = ground (arith, AllEntries-insert P k v m p h.1)

  pub AllEntries-drop_if :
      (P : ℤ → V → Type 0) (test : V → Bool) (m : Map V)
      → AllEntries P m
      → AllEntries P (drop_if test m)
  unfolding drop_if
  AllEntries-drop_if P test [] h = tt
  AllEntries-drop_if P test ((j, w) ∷ m) h = ground (arith, AllEntries-drop_if P test m h.1)

  pub AllEntries-lookup :
      (P : ℤ → V → Type 0) (k : ℤ) (m : Map V) {v : V}
      → AllEntries P m
      → lookup k m ≡ some v
      → P k v
  unfolding lookup
  AllEntries-lookup P k [] {v} h e = absurd (cc)
  AllEntries-lookup P k ((j, w) ∷ m) {v} h e =
      ground (arith, eqb_ℤ_iff j k, AllEntries-lookup P k m {v = v} h.1)
