-- ===== src/Service.antt =====
-- packages/service: the authorization service's claim ceremony and its rate limiter.
pub mod Types
pub mod Errors
pub mod RateLimit
pub mod Code
pub mod Claim
pub mod ClaimState
pub mod Store
pub mod Encoding
pub mod Json
pub mod Jose
pub mod Agent
pub mod Router
pub mod Tests
