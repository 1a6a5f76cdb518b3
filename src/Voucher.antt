-- ===== src/Voucher.antt =====
-- The voucher backend (voucher-backend/src): vouchers that pay the gas of the program's users.
pub mod Backend
pub mod Lock
pub mod Chain
pub mod Service
pub mod Gasless
pub mod Task
mod Examples
