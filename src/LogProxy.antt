-- ===== src/LogProxy.antt =====
-- The asynchronous log writer (logger/logproxy): buffers, their cache, the writers that fill the
-- channel and the loop that drains it.
pub mod Buffer
pub mod Batch
pub mod Sharing
pub mod Service
