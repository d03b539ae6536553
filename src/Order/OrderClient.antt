-- ===== src/Order/OrderClient.antt =====
-- src/order/order_client.hpp and .cpp. What the exchange answers is an argument, and so is the time.
-- An update that the client hands to its callback is returned.
pub mod Deltas
pub mod Races
pub mod Submit
pub use finam_tradebot.Order.Protocol.{
  ProtoStatus, TimeInForce, PlaceRequest, CancelRequest, PlaceReply, StreamOrder, is_limit, is_live,
  or_zero,
}
unfoldable pub use finam_tradebot.Order.Protocol.{map_status, print_ℤ, to_int32}
use finam_tradebot.Order.Protocol.{ioc, day}
use finam_tradebot.Prelude.{◌&&◌, Option, none, some, List, [], ◌∷◌, ◌++◌, if◌then◌else◌}
use finam_tradebot.Prelude.Int.{ℤ, pos, ◌+ℤ◌, ◌-ℤ◌, ltb_ℤ}
use finam_tradebot.Prelude.Map.{Map, lookup, insert}
use finam_tradebot.Prelude.Text.{Text, text, is_empty, stol}
use finam_tradebot.Core.Types.{
  Error, Result, ok, err, error, Timestamp, Symbol, to_string, OrderSide, OrderStatus, OrderType,
  OrderUpdate, OrderRequest, market, limit, invalid_argument, invalid_quantity, invalid_price,
  rpc_error,
}
use finam_tradebot.Double.{Double, ◌≼◌, nought}
use finam_tradebot.Risk.State.{Reply, reply, failure}

pub record OrderState (W : Type 0) : Type 0 where
  pub order_id : Text
  pub local_id : ℤ
  pub symbol : Symbol
  pub side : OrderSide
  pub status : OrderStatus
  pub order_type : OrderType
  pub price : W
  pub qty_total : ℤ
  pub qty_filled : ℤ
  pub reject_reason : Text
  pub ts : Timestamp

pub record OrderClient (W : Type 0) : Type 0 where
  pub account_id : Text
  pub id_counter : ℤ
  pub orders : Map (OrderState W)

module _ {W : Type 0} ⦃d : Double W⦄ where
  unfoldable pub make : Text → OrderClient W
  make account = record { account_id = account; id_counter = pos 1; orders = [] }

  unfoldable pub validate : OrderRequest W → Option Error
  validate req =
      if is_empty req.client_id
      then some (record { code = invalid_argument; message = text "client_id is empty" })
      else (if ltb_ℤ (pos 0) req.quantity
          then (if is_limit req.order_type && (req.price ≼ nought)
              then some
                  (record { code = invalid_price; message = text "limit order requires price > 0" })
              else none)
          else some (record {
            code = invalid_quantity;
            message = text "quantity must be > 0, got " ++ print_ℤ req.quantity;
          }))

  unfoldable pub find : ℤ → OrderClient W → Option (OrderState W)
  find local_id c = lookup local_id c.orders

  unfoldable pub active_orders : OrderClient W → List (OrderState W)
  active_orders c = live c.orders
    where
      live : Map (OrderState W) → List (OrderState W)
      live [] = []
      live ((k, s) ∷ m) = if is_live s.status then s ∷ live m else live m

  unfoldable pub prev_filled : ℤ → OrderClient W → ℤ
  prev_filled lid c = elim (lookup lid c.orders) [ none ↦ pos 0 | some s ↦ s.qty_filled ]

  -- `upsert` reads the quantity under a lock of its own, and writes later.
  abbrev pub commit : ℤ → OrderState W → OrderClient W → OrderClient W × OrderUpdate W
  commit prev_filled s c = (
    record c { orders = insert s.local_id s c.orders },
    record {
      order_no = pos 0;
      transaction_id = to_int32 s.local_id;
      symbol = s.symbol;
      client_id = c.account_id;
      side = s.side;
      status = s.status;
      order_type = s.order_type;
      price = s.price;
      qty_total = s.qty_total;
      qty_filled = s.qty_filled -ℤ prev_filled;
      message = s.reject_reason;
      ts = s.ts;
    },
  )

  unfoldable pub upsert : OrderState W → OrderClient W → OrderClient W × OrderUpdate W
  upsert s c = commit (prev_filled s.local_id c) s c

  unfoldable pub place_request : ℤ → OrderRequest W → OrderClient W → PlaceRequest
  place_request local_id req c = record {
    account_id = c.account_id;
    symbol = to_string req.symbol;
    quantity = d.print (d.of_ℤ req.quantity);
    side = req.side;
    client_order_id = print_ℤ local_id;
    order_type = req.order_type;
    time_in_force = if is_limit req.order_type then day else ioc;
    limit_price = if is_limit req.order_type then some (d.print req.price) else none;
  }

  unfoldable pub placed : ℤ → OrderRequest W → PlaceReply → Timestamp → OrderState W
  placed local_id req resp now = record {
    order_id = resp.order_id;
    local_id = local_id;
    symbol = req.symbol;
    side = req.side;
    status = map_status resp.status;
    order_type = req.order_type;
    price = req.price;
    qty_total = req.quantity;
    qty_filled = pos 0;
    reject_reason = [];
    ts = now;
  }

  -- The new client, the result, and the updates handed to the callback. `place` is PlaceOrder.
  unfoldable pub submit :
      (PlaceRequest → Reply PlaceReply)
      → Timestamp
      → OrderRequest W
      → OrderClient W
      → OrderClient W × Result ℤ × List (OrderUpdate W)
  submit place now req c = elim (validate req) [
    | some e ↦ (c, err e, [])
    | none ↦
        let local_id = c.id_counter in
        let c₁ = record c { id_counter = local_id +ℤ pos 1 } in
        elim (place (place_request local_id req c)) [
          | failure msg ↦ (c₁, error rpc_error msg, [])
          | reply resp ↦
              let (c₂, upd) = upsert (placed local_id req resp now) c₁ in
              (c₂, ok local_id, upd ∷ [])
        ]
  ]

  -- `cancel_order` is CancelOrder.
  unfoldable pub cancel : (CancelRequest → Reply (Unit {0})) → ℤ → OrderClient W → Result (Unit {0})
  cancel cancel_order local_id c = elim (lookup local_id c.orders) [
    | none ↦
        error invalid_argument (text "order local_id=" ++ (print_ℤ local_id ++ text " not found"))
    | some s ↦
        if is_empty s.order_id
        then error invalid_argument (text "exchange order_id is empty")
        else elim (cancel_order (record { account_id = c.account_id; order_id = s.order_id })) [
          | failure msg ↦ error rpc_error msg
          | reply r ↦ ok tt
        ]
  ]

  -- `static_cast<int32_t>(std::stod(t))` under `try`, for values in range.
  unfoldable pub quantity_of : Option W → ℤ
  quantity_of none = pos 0
  quantity_of (some x) = d.truncate x

  unfoldable pub symbol_of : ℤ → OrderClient W → Symbol
  symbol_of lid c = elim (lookup lid c.orders) [
    | none ↦ record { security_code = []; security_board = [] }
    | some s ↦ s.symbol
  ]

  unfoldable pub streamed : StreamOrder → Timestamp → OrderClient W → OrderState W
  streamed o now c =
      let lid = or_zero (stol o.client_order_id) in
      record {
        order_id = o.order_id;
        local_id = lid;
        symbol = symbol_of lid c;
        side = if o.side_is_buy then OrderSide.buy else OrderSide.sell;
        status = map_status o.status;
        order_type = if o.type_is_market then market else limit;
        price = nought;
        qty_total = quantity_of (d.stod o.initial_quantity);
        qty_filled = quantity_of (d.stod o.executed_quantity);
        reject_reason = [];
        ts = now;
      }

  -- One order of a message of the stream.
  unfoldable pub on_stream_order :
      StreamOrder → Timestamp → OrderClient W → OrderClient W × OrderUpdate W
  on_stream_order o now c = upsert (streamed o now c) c
