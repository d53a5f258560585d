-- ===== src/Webhooks.antt =====
-- internal/webhooks: which events go to which webhook, the log that stands in for a receiver, one
-- delivery with its retries, and the dispatcher with its queue and workers.
pub mod Subscription
pub mod Echo
pub mod Delivery
pub mod Dispatcher
pub mod Tests
