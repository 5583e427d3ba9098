-- ===== src/Complexity/Patterns.antt =====
-- The tables of patterns of backend/services/complexity_scorer.py, with the patterns as written.
pub mod Tasks
pub mod Scopes
pub mod Concepts
pub mod Families
pub mod Components
pub mod Single
