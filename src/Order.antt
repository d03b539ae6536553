-- ===== src/Order.antt =====
-- src/order: the client that places, cancels and follows orders.
pub mod OrderClient
pub mod OrderStream
pub mod Protocol
