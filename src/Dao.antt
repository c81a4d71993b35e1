-- ===== src/Dao.antt =====
-- The data access object of daemon/src/dao and the tables of migrations/.
pub mod Store
pub mod Invoices
pub mod Transactions
pub mod Transfers
pub mod WebhookEvents
pub mod Swaps
pub mod Effects
pub mod Listing
pub mod AllRows
pub mod Changes
