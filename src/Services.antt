-- ===== src/Services.antt =====
-- services/: the request handlers over the cache and the dispatcher.
pub mod Requests
pub mod Forward
pub mod Channel
pub mod States
pub mod Turns
pub mod Endings
pub mod Client
pub mod Subscription
pub mod Orders
pub mod Engine
