-- ===== src/Tests.antt =====
-- The theorems at concrete inputs, and runs of the model.
pub mod Calendar
pub mod Cell
pub mod Contention
pub mod Sample
pub mod Module
pub mod Histories
pub mod Library
pub mod Proc
pub mod Threads
pub mod Ult
