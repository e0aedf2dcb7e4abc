-- ===== src/Http.antt =====
-- The OpenAI-compatible server, bubblehub/http_api.py.
pub mod Messages
pub mod Order
pub mod RoundTrip
pub mod Request
pub mod Payloads
pub mod Handler
mod Examples
