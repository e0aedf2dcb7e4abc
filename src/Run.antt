-- ===== src/Run.antt =====
-- `bubble run`, bubblehub/cli/run.py.
pub mod Paths
pub mod Environment
pub mod Persistent
pub mod Places
pub mod Agent
mod Examples
