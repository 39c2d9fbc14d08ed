-- ===== src/Numeric.antt =====
-- Arithmetic on `i32`: demos/rosetta 03_if_else, 16_methods, 24_factorial,
-- 25_fibonacci, 71_pipeline_stage, 72_graph_walk, 74_component_store, 79_metrics, 83_blob_chunk,
-- 85_scheduler_tree, 86_cache_eviction, 92_query_plan, 93_log_aggregator, 67_resource_pool and
-- 196_lto_link_time_opt. An array of a fixed size that is only indexed by constants is a tuple here.
pub mod Formulas
pub mod Choices
pub mod Recursion
pub mod FactorialLaws
pub mod FibLaws
pub mod Laws
unfoldable pub use Formulas.*
unfoldable pub use Choices.*
unfoldable pub use Recursion.*
