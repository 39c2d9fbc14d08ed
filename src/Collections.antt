-- ===== src/Collections.antt =====
-- Queues and maps: demos/rosetta 52_queue_rotate, 53_cache_hits, 63_router_table, 81_kv_store,
-- 89_job_queue, 54_mem_fill and 04_loop.
pub mod Queues
pub mod Maps
pub mod QueueLaws
pub mod MapLaws
