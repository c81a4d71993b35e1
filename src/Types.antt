-- ===== src/Types.antt =====
-- The domain types of daemon/src/types and client/src/types.
pub mod Chain
pub mod Swap
pub mod Retry
pub mod SwapOrder
pub mod Invoice
pub mod Transaction
pub mod Transfer
pub mod Webhook
pub mod Changes
pub mod ChangesJson
