-- ===== src/Bandwidth.antt =====
-- internal/lambda/core/bandwidthlimiter: a token bucket that limits the rate of a response stream.
pub mod Bucket
pub mod Chunks
pub mod Throttler
pub mod Writer
