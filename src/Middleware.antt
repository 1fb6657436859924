-- ===== src/Middleware.antt =====
-- The package `middleware`, one module to each source file.
pub mod Skipper
pub mod HeaderCodec
pub mod CacheResponse
pub mod Limiter
pub mod RouterLimiter
pub mod LruStore
pub mod Cache
pub mod BodyParser
pub mod StaticServe
pub mod Conditional
pub mod Error
pub mod Recover
pub mod Guards
pub mod BasicAuth
pub mod Cors
pub mod Compress
pub mod RequestId
pub mod Tracker
pub mod ConcurrentLimiter
pub mod Responder
pub mod Answered
