-- ===== src/System.antt =====
-- The tables as all the workers share them, and their invariant.
pub mod Counts
pub mod Invariant
pub mod Classified
pub mod Upserted
pub mod Growth
