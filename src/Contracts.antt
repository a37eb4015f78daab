-- ===== src/Contracts.antt =====
-- common/contracts.py.
pub mod Events
pub mod Wrappers
mod Examples
