-- ===== src/Tests.antt =====
-- Runs of the model on concrete inputs, and each theorem at an input that meets its hypotheses.
pub mod Data
pub mod Bso
pub mod Open
pub mod Collections
pub mod Batch
pub mod Token
pub mod Web
pub mod User
pub mod Json
pub mod Routes
pub mod Upload
pub mod Access
pub mod Cached
pub mod Tidy
pub mod Start
