-- ===== src/Shared.antt =====
-- What the services share: services/shared.
pub mod RateLimiter
pub mod LocalOutbox
pub mod MarketPhase
