-- ===== src/Order/Protocol.antt =====
-- The messages of the exchange that src/order/order_client.cpp writes and reads.
use finam_tradebot.Prelude.{
  ℕ, ◌+◌, ◌-◌, ◌^◌, ◌%◌, Bool, true, false, Option, none, some, ◌∷◌, if◌then◌else◌, ltb,
}
use finam_tradebot.Prelude.Int.{ℤ, pos, negsuc, pos_part, neg_part}
use finam_tradebot.Prelude.Text.{Text, decimal}
use finam_tradebot.Core.Types.{
  OrderSide, OrderStatus, OrderType, market, limit, pending, partial_fill, cancelled,
}

-- The statuses of the exchange; `unlisted` is a value that the table does not have.
pub data ProtoStatus : Type 0 where
  new pending_new pending_cancel suspended watching wait link_wait forwarding : ProtoStatus
  sl_forwarding tp_forwarding sl_guard_time tp_guard_time : ProtoStatus
  tp_correction tp_corr_guard_time : ProtoStatus
  partially_filled : ProtoStatus
  filled executed sl_executed tp_executed : ProtoStatus
  canceled replaced done_for_day expired disabled : ProtoStatus
  rejected rejected_by_exchange denied_by_broker failed : ProtoStatus
  unlisted : ℕ → ProtoStatus

unfoldable pub map_status : ProtoStatus → OrderStatus
map_status ProtoStatus.new = pending
map_status ProtoStatus.pending_new = pending
map_status ProtoStatus.pending_cancel = pending
map_status ProtoStatus.suspended = pending
map_status ProtoStatus.watching = pending
map_status ProtoStatus.wait = pending
map_status ProtoStatus.link_wait = pending
map_status ProtoStatus.forwarding = pending
map_status ProtoStatus.sl_forwarding = pending
map_status ProtoStatus.tp_forwarding = pending
map_status ProtoStatus.sl_guard_time = pending
map_status ProtoStatus.tp_guard_time = pending
map_status ProtoStatus.tp_correction = pending
map_status ProtoStatus.tp_corr_guard_time = pending
map_status ProtoStatus.partially_filled = partial_fill
map_status ProtoStatus.filled = OrderStatus.filled
map_status ProtoStatus.executed = OrderStatus.filled
map_status ProtoStatus.sl_executed = OrderStatus.filled
map_status ProtoStatus.tp_executed = OrderStatus.filled
map_status ProtoStatus.canceled = cancelled
map_status ProtoStatus.replaced = cancelled
map_status ProtoStatus.done_for_day = cancelled
map_status ProtoStatus.expired = cancelled
map_status ProtoStatus.disabled = cancelled
map_status ProtoStatus.rejected = OrderStatus.rejected
map_status ProtoStatus.rejected_by_exchange = OrderStatus.rejected
map_status ProtoStatus.denied_by_broker = OrderStatus.rejected
map_status ProtoStatus.failed = OrderStatus.rejected
map_status (ProtoStatus.unlisted n) = pending

pub data TimeInForce : Type 0 where
  ioc day : TimeInForce

-- The request of PlaceOrder.
pub record PlaceRequest : Type 0 where
  pub account_id : Text
  pub symbol : Text
  pub quantity : Text
  pub side : OrderSide
  pub client_order_id : Text
  pub order_type : OrderType
  pub time_in_force : TimeInForce
  pub limit_price : Option Text

pub record CancelRequest : Type 0 where
  pub account_id : Text
  pub order_id : Text

-- The fields of the answer to PlaceOrder that are read.
pub record PlaceReply : Type 0 where
  pub order_id : Text
  pub status : ProtoStatus

-- The fields of an order in the stream that are read.
pub record StreamOrder : Type 0 where
  pub order_id : Text
  pub client_order_id : Text
  pub initial_quantity : Text
  pub executed_quantity : Text
  pub side_is_buy : Bool
  pub type_is_market : Bool
  pub status : ProtoStatus

-- `std::to_string` of an integer.
unfoldable pub print_ℤ : ℤ → Text
print_ℤ (pos n) = decimal n
print_ℤ (negsuc n) = b'-' ∷ decimal (n + 1)

-- `static_cast<int32_t>`: the value modulo 2^32 in -2^31 to 2^31 - 1.
unfoldable pub to_int32 : ℤ → ℤ
to_int32 x =
    let r = (pos_part x + 2 ^ 32 - neg_part x % 2 ^ 32) % 2 ^ 32 in
    if ltb r (2 ^ 31) then pos r else negsuc (2 ^ 32 - r - 1)

abbrev pub is_limit : OrderType → Bool
is_limit market = false
is_limit limit = true

abbrev pub is_live : OrderStatus → Bool
is_live pending = true
is_live partial_fill = true
is_live _ = false

-- The text after a failed parse is 0.
abbrev pub or_zero : Option ℤ → ℤ
or_zero none = pos 0
or_zero (some n) = n
