-- ===== src/Oracle.antt =====
-- The decision functions, the price feed and the HTTP server of the oracle server (oracle-server/src).
pub mod Result
pub mod Finalization
pub mod PriceFeed
pub mod Server
mod Examples
