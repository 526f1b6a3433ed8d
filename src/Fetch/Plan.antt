-- ===== src/Fetch/Plan.antt =====
-- server/crates/sn-fetch/src/plan.rs. `Exits` chooses the exits, `Split` and `Merge` have the
-- helpers on ranges, `Build` puts them together and validates.
pub mod Split
pub mod Merge
pub mod Exits
pub mod Build
