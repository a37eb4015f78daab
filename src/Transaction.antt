-- ===== src/Transaction.antt =====
-- common/transaction.py: fees, rejections of the node, and the transaction manager.
pub mod Rounding
pub mod Fees
pub mod Rejection
pub mod Manager
mod Examples
