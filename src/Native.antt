-- ===== src/Native.antt =====
-- bubblehub/native.py: what Python does around the native library.
pub mod Broker
pub mod Command
pub mod Hardware
mod Examples
