-- ===== src/Risk/RiskManager/Iteration.antt =====
-- The order in which on_fill of src/risk/risk_manager.cpp goes over the positions, which
-- std::unordered_map leaves open.
use mathlib.Core.Quot
use mathlib.Core.Quot.{Quot}
use finam_tradebot.Prelude.{
  ◌≡◌, sym, ap, ◌∙◌, inl, inr, Bool, true, Bool-cases, Option, none, some, [], arith, if◌then◌else◌,
}
use finam_tradebot.Prelude.Int.{ℤ, pos, ltb_ℤ}
use finam_tradebot.Prelude.Map.{Map, lookup, insert, lookup-insert, eqb_ℤ}
use finam_tradebot.Core.Types.{OrderUpdate}
use finam_tradebot.Double.{Double}
use finam_tradebot.Risk.RiskManager.{
  RiskManager, OpenPos, on_fill, close_pos, close_pnl, opened, take_opposite, is_buy,
}
use finam_tradebot.Risk.RiskManager.Sides.{on_fill-nothing}
use finam_tradebot.Risk.RiskManager.Opposite.{
  SameMap, Distinct, is_opposite, Untaken, Found, take_opposite-cases,
}

module _ {W : Type 0} ⦃d : Double W⦄ where
  -- At most one position is on the other side.
  abbrev pub AtMostOne : Bool → Map (OpenPos W) → Type 0
  AtMostOne buying m =
      (i j : ℤ) (p q : OpenPos W)
      → lookup i m ≡ some p
      → lookup j m ≡ some q
      → is_opposite buying p ≡ true
      → is_opposite buying q ≡ true
      → i ≡ j

  -- A risk manager up to the order of its positions.
  abbrev pub view : RiskManager W → RiskManager W × Quot (SameMap {V = OpenPos W})
  view r = (record r { open_pos = [] }, Quot.mk r.open_pos)

  view-record :
      (r : RiskManager W) (m m' : Map (OpenPos W))
      → SameMap m m'
      → view (record r { open_pos = m }) ≡ view (record r { open_pos = m' })
  view-record r m m' same = ap (λ ps. (record r { open_pos = [] }, ps)) (Quot.sound same)

  view-close_pos :
      (pnl : W) (r : RiskManager W) (m m' rest rest' : Map (OpenPos W))
      → SameMap rest rest'
      → view (close_pos pnl rest (record r { open_pos = m }))
        ≡ view (close_pos pnl rest' (record r { open_pos = m' }))
  unfolding close_pos
  view-close_pos pnl r m m' rest rest' same =
      let closed = close_pos pnl [] (record r { open_pos = [] }) in
      ap (λ ps. (record closed { open_pos = [] }, ps)) (Quot.sound same)

  on_fill-untaken :
      (upd : OrderUpdate W) (r : RiskManager W) (m : Map (OpenPos W))
      → ltb_ℤ (pos 0) upd.qty_filled ≡ true
      → take_opposite (is_buy upd.side) m ≡ none
      → on_fill upd (record r { open_pos = m })
        ≡ record r { open_pos = insert upd.transaction_id (opened upd) m }
  unfolding on_fill
  on_fill-untaken upd r m qty nothing = rw (qty, nothing)

  on_fill-found :
      (upd : OrderUpdate W) (r : RiskManager W) (m rest : Map (OpenPos W)) (p : OpenPos W)
      → ltb_ℤ (pos 0) upd.qty_filled ≡ true
      → take_opposite (is_buy upd.side) m ≡ some (p, rest)
      → on_fill upd (record r { open_pos = m })
        ≡ close_pos (close_pnl upd p) rest (record r { open_pos = m })
  unfolding on_fill
  on_fill-found upd r m rest p qty found = rw (qty, found)

  insert-SameMap :
      (k : ℤ) (p : OpenPos W) (m m' : Map (OpenPos W))
      → SameMap m m'
      → SameMap (insert k p m) (insert k p m')
  insert-SameMap k p m m' same j = rw (lookup-insert k j p m, lookup-insert k j p m', same j)

  rest-SameMap :
      (buying : Bool) (m m' : Map (OpenPos W)) (f : Found buying m) (f' : Found buying m')
      → SameMap m m'
      → f.taken.key ≡ f'.taken.key
      → SameMap f.rest f'.rest
  rest-SameMap buying m m' f f' same key j =
      f.taken.left j
      ∙ ap (λ k. if eqb_ℤ k j then none else lookup j m) key
      ∙ ap (λ found. if eqb_ℤ f'.taken.key j then none else found) (same j)
      ∙ sym (f'.taken.left j)

  taken-position :
      (buying : Bool) (m m' : Map (OpenPos W)) (f : Found buying m) (f' : Found buying m')
      → SameMap m m'
      → f.taken.key ≡ f'.taken.key
      → f.position ≡ f'.position
  taken-position buying m m' f f' same key =
      ap (λ (o : Option (OpenPos W)). elim o [ none ↦ f.position | some x ↦ x ])
        (sym f.taken.there ∙ same f.taken.key ∙ ap (λ k. lookup k m') key ∙ f'.taken.there)

  clash :
      (buying : Bool) (m m' : Map (OpenPos W))
      → Untaken buying m
      → Found buying m'
      → SameMap m m'
      → ⊥
  clash buying m m' u f same =
      let same_side = u.all_same f.taken.key f.position (same f.taken.key ∙ f.taken.there) in
      absurd (ground (arith, same_side, f.taken.opposite))

  view-closed :
      (upd : OrderUpdate W) (r : RiskManager W) (m m' : Map (OpenPos W))
      → (f : Found (is_buy upd.side) m) (f' : Found (is_buy upd.side) m')
      → ltb_ℤ (pos 0) upd.qty_filled ≡ true
      → SameMap m m'
      → AtMostOne (is_buy upd.side) m
      → view (on_fill upd (record r { open_pos = m }))
        ≡ view (on_fill upd (record r { open_pos = m' }))
  view-closed upd r m m' f f' qty same one =
      let buying = is_buy upd.side in
      let t = f.taken in
      let t' = f'.taken in
      let key =
        one t.key t'.key f.position f'.position t.there (same t'.key ∙ t'.there) t.opposite
          t'.opposite in
      let r' : RiskManager W = record r { open_pos = m' } in
      ap view (on_fill-found upd r m f.rest f.position qty f.found)
      ∙ view-close_pos (close_pnl upd f.position) r m m' f.rest f'.rest
          (rest-SameMap buying m m' f f' same key)
      ∙ ap (λ p. view (close_pos (close_pnl upd p) f'.rest r'))
          (taken-position buying m m' f f' same key)
      ∙ sym (ap view (on_fill-found upd r m' f'.rest f'.position qty f'.found))

  -- A fill leaves the same account and the same positions in whatever order the map goes over the
  -- positions, if at most one of them is on the other side of the fill, and no key stands twice.
  pub view-on_fill :
      (upd : OrderUpdate W) (r : RiskManager W) (m m' : Map (OpenPos W))
      → Distinct m
      → Distinct m'
      → SameMap m m'
      → AtMostOne (is_buy upd.side) m
      → view (on_fill upd (record r { open_pos = m }))
        ≡ view (on_fill upd (record r { open_pos = m' }))
  view-on_fill upd r m m' distinct distinct' same one =
      let buying = is_buy upd.side in
      elim (Bool-cases (ltb_ℤ (pos 0) upd.qty_filled)) [
        | inr nothing ↦
            ap view (on_fill-nothing upd (record r { open_pos = m }) nothing)
            ∙ view-record r m m' same
            ∙ sym (ap view (on_fill-nothing upd (record r { open_pos = m' }) nothing))
        | inl qty ↦ elim (take_opposite-cases buying m distinct) [
          | inl u ↦ elim (take_opposite-cases buying m' distinct') [
            | inl u' ↦
                ap view (on_fill-untaken upd r m qty u.nothing)
                ∙ view-record r _ _ (insert-SameMap upd.transaction_id (opened upd) m m' same)
                ∙ sym (ap view (on_fill-untaken upd r m' qty u'.nothing))
            | inr f' ↦ absurd (clash buying m m' u f' same)
          ]
          | inr f ↦ elim (take_opposite-cases buying m' distinct') [
            | inl u' ↦ absurd (clash buying m' m u' f (λ j. sym (same j)))
            | inr f' ↦ view-closed upd r m m' f f' qty same one
          ]
        ]
      ]
