-- ===== src/Tasks.antt =====
-- Futures and executors: demos/rosetta 09_async_await, 133_select_macro_race, 134_join_all_futures,
-- 135_async_streams and 136_executor_task_queue.
pub mod Future
pub mod Clock
pub mod Laws
