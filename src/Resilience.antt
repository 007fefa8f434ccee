-- ===== src/Resilience.antt =====
-- resilience.py: the retry policy, the circuit breakers and the rate limiter.
-- Clock readings and configured durations are exact numbers of clock ticks, counted from an
-- epoch before every reading.
pub mod Retry
pub mod Breaker
pub mod RateLimit
pub mod RedisBreaker
mod Tests
