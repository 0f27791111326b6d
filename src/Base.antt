-- ===== src/Base.antt =====
-- windz/base: time, threads' meeting points and the descriptor utilities.
pub mod Time
pub mod Util
pub mod BlockingQueue
pub mod ThreadPool
pub mod CountDownLatch
pub mod Thread
