-- ===== src/Order/OrderClient/Races.antt =====
-- An order of src/order/order_client.cpp whose fill is in the stream before `submit` has recorded the
-- order: the answer of PlaceOrder and the stream are read on different threads.
use finam_tradebot.Prelude.{◌≡◌, refl, none, some, [], arith}
use finam_tradebot.Prelude.Int.{ℤ, pos, ◌-ℤ◌, int_laws}
use finam_tradebot.Prelude.Map.{lookup, lookup-insert, Map, insert, eqb_ℤ_refl}
use finam_tradebot.Prelude.Text.{stol}
use finam_tradebot.Core.Types.{Timestamp, OrderRequest}
use finam_tradebot.Double.{Double}
use finam_tradebot.Order.OrderClient.{
  OrderClient, OrderState, StreamOrder, PlaceReply, commit, upsert, prev_filled, placed, streamed,
  quantity_of, symbol_of, on_stream_order, or_zero,
}

sub_zero : (a : ℤ) → a -ℤ pos 0 ≡ a
sub_zero a = omega int_laws

lookup-insert_self : {V : Type 0} (k : ℤ) (v : V) (m : Map V) → lookup k (insert k v m) ≡ some v
lookup-insert_self k v m = rw (lookup-insert k k v m, eqb_ℤ_refl k)

-- The identifier that `submit` has given to an order.
abbrev pub id_of : StreamOrder → ℤ
id_of o = or_zero (stol o.client_order_id)

module _ {W : Type 0} ⦃d : Double W⦄ where
  prev_filled-unknown :
      (k : ℤ) (c : OrderClient W) → lookup k c.orders ≡ none → prev_filled k c ≡ pos 0
  unfolding prev_filled
  prev_filled-unknown k c unknown = ground (arith, unknown)

  symbol_of-unknown :
      (k : ℤ) (c : OrderClient W) → lookup k c.orders ≡ none → (symbol_of k c).security_code ≡ []
  unfolding symbol_of
  symbol_of-unknown k c unknown = ground (arith, unknown)

  prev_filled-commit :
      (p : ℤ) (s : OrderState W) (c : OrderClient W)
      → prev_filled s.local_id (commit p s c).0 ≡ s.qty_filled
  unfolding prev_filled
  prev_filled-commit p s c = ground (arith, lookup-insert_self s.local_id s c.orders)

  symbol_of-commit :
      (p : ℤ) (s : OrderState W) (c : OrderClient W)
      → symbol_of s.local_id (commit p s c).0 ≡ s.symbol
  unfolding symbol_of
  symbol_of-commit p s c = ground (arith, lookup-insert_self s.local_id s c.orders)

  -- If the stream brings a fill of an order before `submit` has recorded the order, and brings the
  -- same state once more afterwards, the whole quantity is reported twice. In between `submit` reports
  -- the quantity that it has read for the order, taken away: nothing if it has read before the first
  -- of the fills was written. The first report has no symbol, the last one that of the order.
  pub fill_twice_lem :
      (o : StreamOrder) (req : OrderRequest W) (resp : PlaceReply) (now now' now'' : Timestamp)
      → (p : ℤ) (c : OrderClient W) → lookup (id_of o) c.orders ≡ none
      → let executed = quantity_of (d.stod o.executed_quantity) in
        let (c₁, first) = on_stream_order o now c in
        let (c₂, answer) = commit p (placed (id_of o) req resp now') c₁ in
        let (c₃, second) = on_stream_order o now'' c₂ in
        (first.qty_filled ≡ executed)
        × (first.symbol.security_code ≡ [])
        × (answer.qty_filled ≡ pos 0 -ℤ p)
        × (second.qty_filled ≡ executed)
        × (second.symbol ≡ req.symbol)
  unfolding on_stream_order streamed upsert placed
  fill_twice_lem o req resp now now' now'' p c unknown =
      let executed = quantity_of (d.stod o.executed_quantity) in
      let c₁ = (on_stream_order o now c).0 in
      let s = placed (id_of o) req resp now' in
      (
        rw (prev_filled-unknown (id_of o) c unknown) (sub_zero executed),
        symbol_of-unknown (id_of o) c unknown,
        refl,
        rw (prev_filled-commit p s c₁) (sub_zero executed),
        symbol_of-commit p s c₁,
      )
