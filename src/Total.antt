-- ===== src/Total.antt =====
-- src/total.rs: termination checking of pure functions.
pub mod Show
pub mod Lin
pub mod Calls
pub mod Components
pub mod Check
mod Examples
