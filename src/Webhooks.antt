-- ===== src/Webhooks.antt =====
-- app/webhooks.py: signing and sending a webhook, and the retry queue. The worker of
-- app/scripts/retry_webhooks.py is in Retry; the theorems are in the modules below.
mod Send
unfoldable pub use Send.*
pub mod Sent
pub mod Ports
pub mod Queue
pub mod Retry
