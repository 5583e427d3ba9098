-- ===== src/Tests.antt =====
-- Concrete runs of the models, and the theorems at concrete inputs.
mod Router
mod Health
mod Ttl
mod Session
mod Floors
mod Pii
mod Keys
mod Cost
mod Llm
mod Access
pub mod Complexity
pub mod Verifier
mod Opening
mod Anthropic
