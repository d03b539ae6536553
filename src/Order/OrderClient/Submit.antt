-- ===== src/Order/OrderClient/Submit.antt =====
-- What `validate`, `submit` and `cancel` of src/order/order_client.cpp promise.
use finam_tradebot.Prelude.{
  ◌≡◌, refl, ◌↔◌, ◌⊎◌, inl, inr, Bool, true, false, ◌&&◌, Option, none, some, [], ◌∷◌, arith,
  if◌then◌else◌, Option-cases, sym, ◌∙◌, ap,
}
use finam_tradebot.Prelude.Int.{ℤ, pos, ltb_ℤ, ◌+ℤ◌, ◌-ℤ◌}
use finam_tradebot.Prelude.Map.{lookup-insert, eqb_ℤ}
use finam_tradebot.Prelude.Text.{Text, is_empty}
use finam_tradebot.Core.Types.{
  ok, err, error, rpc_error, Error, Timestamp, OrderRequest, OrderUpdate,
}
use finam_tradebot.Double.{Double, nought}
use finam_tradebot.Risk.RiskManager.{Reply, reply, failure}
use finam_tradebot.Order.OrderClient.{
  OrderClient, OrderState, prev_filled, map_status, to_int32, PlaceRequest, PlaceReply, validate,
  submit, upsert, placed, place_request, find, is_limit,
}

abbrev pub is_some : {A : Type 0} → Option A → Bool
is_some none = false
is_some (some a) = true

Reply-cases :
    {A : Type 0} (r : Reply A) → ((a : A) × (r ≡ reply a)) ⊎ ((m : Text) × (r ≡ failure m))
Reply-cases (reply a) = inl (a, refl)
Reply-cases (failure m) = inr (m, refl)

ok-ne-err : {A : Type 0} {a : A} {e : Error} → ok a ≡ err e → ⊥
ok-ne-err h = cc

ok_injective : {A : Type 0} {a b : A} → ok a ≡ ok b → a ≡ b
ok_injective h = cc

module _ {W : Type 0} ⦃d : Double W⦄ where
  -- `validate` accepts exactly a request with a client, a positive quantity and, at a limit, a price
  -- that is not 0 or less.
  pub validate_iff :
      (req : OrderRequest W)
      → (validate req ≡ none) ↔ (
          (is_empty req.client_id ≡ false)
          × (ltb_ℤ (pos 0) req.quantity ≡ true)
          × ((is_limit req.order_type && d.le req.price nought) ≡ false))
  unfolding validate
  validate_iff req = ground arith

  -- The request was sent with the next identifier and accepted.
  abbrev pub IsPlaced :
      (PlaceRequest → Reply PlaceReply) → OrderRequest W → OrderClient W → PlaceReply → Type 0
  IsPlaced place req c resp =
      (validate req ≡ none) × (place (place_request c.id_counter req c) ≡ reply resp)

  pub submit-placed :
      (place : PlaceRequest → Reply PlaceReply) (now : Timestamp) (req : OrderRequest W)
      (c : OrderClient W) (resp : PlaceReply)
      → IsPlaced place req c resp
      → let c₁ = record c { id_counter = c.id_counter +ℤ pos 1 } in
        let up = upsert (placed c.id_counter req resp now) c₁ in
        submit place now req c ≡ (up.0, ok c.id_counter, up.1 ∷ [])
  unfolding submit
  submit-placed place now req c resp (valid, sent) = rw (valid, sent, submit)

  submit_result :
      (place : PlaceRequest → Reply PlaceReply) (now : Timestamp) (req : OrderRequest W)
      (c : OrderClient W) (resp : PlaceReply)
      → IsPlaced place req c resp
      → (submit place now req c).1 ≡ ok c.id_counter
  submit_result place now req c resp sent = rw (submit-placed place now req c resp sent)

  submit-refused :
      (place : PlaceRequest → Reply PlaceReply) (now : Timestamp) (req : OrderRequest W)
      (c : OrderClient W) {e : Error}
      → validate req ≡ some e
      → (submit place now req c).1 ≡ err e
  unfolding submit
  submit-refused place now req c v = rw (v, submit) refl

  submit-failed :
      (place : PlaceRequest → Reply PlaceReply) (now : Timestamp) (req : OrderRequest W)
      (c : OrderClient W) {m : Text}
      → validate req ≡ none
      → place (place_request c.id_counter req c) ≡ failure m
      → (submit place now req c).1 ≡ error rpc_error m
  unfolding submit
  submit-failed place now req c v a = rw (v, a, submit) refl

  submit-IsPlaced :
      (place : PlaceRequest → Reply PlaceReply) (now : Timestamp) (req : OrderRequest W)
      (c : OrderClient W) (k : ℤ)
      → (submit place now req c).1 ≡ ok k
      → (resp : PlaceReply) × IsPlaced place req c resp
  submit-IsPlaced place now req c k done = elim (Option-cases (validate req)) [
    | inr (bad, v) ↦ absurd (ok-ne-err (sym done ∙ submit-refused place now req c v))
    | inl v ↦ elim (Reply-cases (place (place_request c.id_counter req c))) [
      | inr (msg, a) ↦ absurd (ok-ne-err (sym done ∙ submit-failed place now req c v a))
      | inl (resp, a) ↦ (resp, (v, a))
    ]
  ]

  -- The order as it is recorded under `k`.
  abbrev pub recorded : ℤ → OrderRequest W → PlaceReply → Timestamp → OrderState W
  recorded k req resp now = record {
    order_id = resp.order_id;
    local_id = k;
    symbol = req.symbol;
    side = req.side;
    status = map_status resp.status;
    order_type = req.order_type;
    price = req.price;
    qty_total = req.quantity;
    qty_filled = pos 0;
    reject_reason = [];
    ts = now;
  }

  -- The update that the callback gets. `before` is what an order recorded under `k` had filled.
  abbrev pub announced : ℤ → Text → ℤ → OrderRequest W → PlaceReply → Timestamp → OrderUpdate W
  announced before account k req resp now = record {
    order_no = pos 0;
    transaction_id = to_int32 k;
    symbol = req.symbol;
    client_id = account;
    side = req.side;
    status = map_status resp.status;
    order_type = req.order_type;
    price = req.price;
    qty_total = req.quantity;
    qty_filled = pos 0 -ℤ before;
    message = [];
    ts = now;
  }

  -- What an accepted order leaves behind.
  abbrev pub IsSent :
      (PlaceRequest → Reply PlaceReply) → Timestamp → OrderRequest W → OrderClient W → ℤ → Type 0
  IsSent place now req c k =
      (resp : PlaceReply) × IsPlaced place req c resp
      × (k ≡ c.id_counter)
      × (let (c', result, updates) = submit place now req c in
          (c'.id_counter ≡ c.id_counter +ℤ pos 1)
          × ((j : ℤ) → find j c' ≡ (if eqb_ℤ k j then some (recorded k req resp now) else find j c))
          × (updates ≡ announced (prev_filled k c) c.account_id k req resp now ∷ []))

  placed-IsSent :
      (place : PlaceRequest → Reply PlaceReply) (now : Timestamp) (req : OrderRequest W)
      (c : OrderClient W) (resp : PlaceReply)
      → IsPlaced place req c resp
      → IsSent place now req c c.id_counter
  unfolding upsert find placed prev_filled
  placed-IsSent place now req c resp sent = (
    resp,
    sent,
    refl,
    rw (submit-placed place now req c resp sent)
        (refl, λ j. lookup-insert c.id_counter j _ c.orders, refl),
  )

  -- `submit` returns `k` exactly when `validate` accepts the request, the exchange accepts the order
  -- that is sent under the next identifier, and `k` is that identifier. It is used up then; the order
  -- stands under it with the symbol, side, type, price and whole quantity of the request, the
  -- exchange's number and status, and no fill; every other order is as it was; and the callback gets
  -- one update with the same values, whose quantity is 0 less what an order under `k` had filled.
  pub submit_ok :
      (place : PlaceRequest → Reply PlaceReply) (now : Timestamp) (req : OrderRequest W)
      (c : OrderClient W) (k : ℤ)
      → ((submit place now req c).1 ≡ ok k) ↔ IsSent place now req c k
  submit_ok place now req c k = (
    λ done.
        let (resp, sent) = submit-IsPlaced place now req c k done in
        let same = ok_injective (sym (submit_result place now req c resp sent) ∙ done) in
        rw (sym same) (placed-IsSent place now req c resp sent),
    λ (resp, sent, same, after). submit_result place now req c resp sent ∙ ap ok (sym same),
  )

  -- A request that `validate` refuses changes nothing and is never sent; one that the exchange
  -- refuses uses up an identifier and records no order. Neither reports an update.
  pub submit_err :
      (place : PlaceRequest → Reply PlaceReply) (now : Timestamp) (req : OrderRequest W)
      (c : OrderClient W) (e : Error)
      → (submit place now req c).1 ≡ err e
      → let (c', result, updates) = submit place now req c in
        (c'.orders ≡ c.orders)
        × (updates ≡ [])
        × (c'.id_counter ≡ (if is_some (validate req) then c.id_counter else c.id_counter +ℤ pos 1))
  unfolding submit
  submit_err place now req c e failed = elim (Option-cases (validate req)) [
    | inr (bad, v) ↦ rw (v, submit) (refl, refl, refl)
    | inl v ↦
        let answer = place (place_request c.id_counter req c) in
        elim (Reply-cases answer) [
          | inr (msg, a) ↦ rw (v, a, submit) (refl, refl, refl)
          | inl (resp, a) ↦
              absurd (ok-ne-err (sym (submit_result place now req c resp (v, a)) ∙ failed))
        ]
  ]
