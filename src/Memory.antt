-- ===== src/Memory.antt =====
-- turnserver/memory: buffers with a reference count, and windows on them.
pub mod Slice
pub mod Taken
pub mod Proxy
pub mod Span
