-- ===== src/Order/OrderClient/Deltas.antt =====
-- The fill quantities that `upsert` of src/order/order_client.cpp hands to the callback.
use finam_tradebot.Prelude.{◌≡◌, refl, List, [], ◌∷◌, arith, if◌then◌else◌, Bool-cases, inl, inr}
use finam_tradebot.Prelude.Int.{ℤ, pos, ◌+ℤ◌, ◌-ℤ◌, int_laws}
use finam_tradebot.Prelude.Map.{lookup-insert, eqb_ℤ, eqb_ℤ_iff}
use finam_tradebot.Double.{Double}
use finam_tradebot.Order.OrderClient.{OrderClient, OrderState, upsert, prev_filled}

sub-add-sub : (a b c : ℤ) → (b -ℤ a) +ℤ (c -ℤ b) ≡ c -ℤ a
sub-add-sub a b c = omega int_laws

sub_self : (a : ℤ) → a -ℤ a ≡ pos 0
sub_self a = omega int_laws

module _ {W : Type 0} ⦃d : Double W⦄ where
  pub prev_filled-upsert :
      (k : ℤ) (s : OrderState W) (c : OrderClient W)
      → prev_filled k (upsert s c).0
        ≡ (if eqb_ℤ s.local_id k then s.qty_filled else prev_filled k c)
  unfolding prev_filled upsert
  prev_filled-upsert k s c = ground (arith, lookup-insert s.local_id k s c.orders)

  pub delta_self :
      (s : OrderState W) (c : OrderClient W)
      → (upsert s c).1.qty_filled ≡ s.qty_filled -ℤ prev_filled s.local_id c
  unfolding upsert
  delta_self s c = refl

  delta-upsert :
      (k : ℤ) (s : OrderState W) (c : OrderClient W)
      → (if eqb_ℤ s.local_id k then (upsert s c).1.qty_filled else pos 0)
        ≡ prev_filled k (upsert s c).0 -ℤ prev_filled k c
  delta-upsert k s c = elim (Bool-cases (eqb_ℤ s.local_id k)) [
    | inl same ↦ rw (prev_filled-upsert, same, delta_self, (eqb_ℤ_iff s.local_id k).0 same)
    | inr other ↦ rw (prev_filled-upsert, other, sub_self)
  ]

  -- The client after a sequence of states, as `submit` and the stream bring them.
  abbrev pub follow : List (OrderState W) → OrderClient W → OrderClient W
  follow [] c = c
  follow (s ∷ ss) c = follow ss (upsert s c).0

  -- The fill quantities of the updates for one order, added up.
  abbrev pub reported : ℤ → List (OrderState W) → OrderClient W → ℤ
  reported k [] c = pos 0
  reported k (s ∷ ss) c =
      (if eqb_ℤ s.local_id k then (upsert s c).1.qty_filled else pos 0)
      +ℤ reported k ss (upsert s c).0

  -- However the states of several orders are mixed, and whatever quantities they carry, the fill
  -- quantities reported for one order add up to the change of the quantity recorded for it.
  pub reported_lem :
      (k : ℤ) (ss : List (OrderState W)) (c : OrderClient W)
      → reported k ss c ≡ prev_filled k (follow ss c) -ℤ prev_filled k c
  reported_lem k [] c = omega int_laws
  reported_lem k (s ∷ ss) c =
      rw (delta-upsert k s c, reported_lem k ss (upsert s c).0)
        (sub-add-sub (prev_filled k c) (prev_filled k (upsert s c).0) _)
