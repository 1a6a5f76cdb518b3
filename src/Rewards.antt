-- ===== src/Rewards.antt =====
-- The rewards backend (rewards-backend/src): freebets for tasks on X and for referrals.
pub mod Text
pub mod Week
pub mod Backend
pub mod Chain
pub mod XService
pub mod Service
pub mod View
pub mod Submissions
pub mod Referrals
pub mod Requests
mod Examples
