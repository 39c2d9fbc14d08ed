-- ===== src/Numeric/Formulas.antt =====
-- Formulas over `i32`, with a check at each operation, in the order of evaluation.
use sa_plugin_sla.Prelude.{ℤ, pos}
use sa_plugin_sla.Rust.{
  Outcome, ◌>>=◌, Exit, print, int_line, add_i32, sub_i32, mul_i32, div_i32, rem_i32,
}

-- 79_metrics
unfoldable pub success_per_thousand : ℤ → ℤ → Outcome ℤ
success_per_thousand ok failed = do
  scaled ← mul_i32 ok (pos 1000)
  all ← add_i32 ok failed
  div_i32 scaled all

unfoldable pub metrics_main : Exit
unfolding success_per_thousand
metrics_main = print int_line (success_per_thousand (pos 95) (pos 5))

-- 83_blob_chunk
pub record BlobRange : Type 0 where
  pub bytes : ℤ
  pub chunk_size : ℤ

unfoldable pub chunk_layout : BlobRange → Outcome ℤ
chunk_layout blob = do
  padded ← add_i32 blob.bytes blob.chunk_size
  padded' ← sub_i32 padded (pos 1)
  chunks ← div_i32 padded' blob.chunk_size
  tail ← rem_i32 blob.bytes blob.chunk_size
  tens ← mul_i32 chunks (pos 10)
  add_i32 tens tail

unfoldable pub blob_chunk_main : Exit
unfolding chunk_layout
blob_chunk_main = print int_line (chunk_layout (record { bytes = pos 10; chunk_size = pos 4 }))

-- 93_log_aggregator
unfoldable pub severity_score : ℤ → ℤ → ℤ → ℤ → Outcome ℤ
severity_score info warn error dropped = do
  warns ← mul_i32 warn (pos 10)
  sum ← add_i32 info warns
  errors ← mul_i32 error (pos 100)
  sum' ← add_i32 sum errors
  sub_i32 sum' dropped

unfoldable pub log_aggregator_main : Exit
unfolding severity_score
log_aggregator_main = print int_line (severity_score (pos 4) (pos 2) (pos 1) (pos 3))

-- 71_pipeline_stage
pub record StageInput : Type 0 where
  pub raw : ℤ
  pub scale : ℤ
  pub offset : ℤ

unfoldable pub pipeline_stage_value : StageInput → Outcome ℤ
pipeline_stage_value input = do stage1 ← mul_i32 input.raw input.scale; add_i32 stage1 input.offset

unfoldable pub pipeline_stage_main : Exit
unfolding pipeline_stage_value
pipeline_stage_main =
    print int_line (pipeline_stage_value (record { raw = pos 2; scale = pos 3; offset = pos 1 }))

-- 72_graph_walk
pub record Edge : Type 0 where
  pub from : ℤ
  pub to : ℤ
  pub weight : ℤ

unfoldable pub walk_cost : Edge × Edge → Outcome ℤ
walk_cost (first, second) = do
  a ← add_i32 first.from first.to
  b ← add_i32 a first.weight
  c ← add_i32 b second.to
  add_i32 c second.weight

unfoldable pub graph_walk_main : Exit
unfolding walk_cost
graph_walk_main = print int_line (
    walk_cost (
      record { from = pos 0; to = pos 1; weight = pos 3 },
      record { from = pos 1; to = pos 2; weight = pos 5 },
    ))

-- 74_component_store
pub record Position : Type 0 where
  pub entity : ℤ
  pub x : ℤ
  pub y : ℤ

unfoldable pub component_sum : Position × Position → Outcome ℤ
component_sum (first, second) = do a ← add_i32 second.entity second.x; add_i32 a second.y

unfoldable pub component_store_main : Exit
unfolding component_sum
component_store_main = print int_line (
    component_sum (
      record { entity = pos 1; x = pos 1; y = pos 2 },
      record { entity = pos 2; x = pos 3; y = pos 4 },
    ))

-- 16_methods
pub record Vec2 : Type 0 where
  pub x : ℤ
  pub y : ℤ

unfoldable pub square_len : Vec2 → Outcome ℤ
square_len v = do xx ← mul_i32 v.x v.x; yy ← mul_i32 v.y v.y; add_i32 xx yy

unfoldable pub methods_main : Exit
unfolding square_len
methods_main = print int_line (square_len (record { x = pos 3; y = pos 4 }))

-- 196_lto_link_time_opt
unfoldable pub leaf : ℤ → ℤ → Outcome ℤ
leaf a b = add_i32 a b

unfoldable pub inner : ℤ → Outcome ℤ
unfolding leaf
inner x = do one ← leaf x (pos 1); two ← leaf x (pos 2); add_i32 one two

unfoldable pub cold_path : ℤ → Outcome ℤ
unfolding inner
cold_path x = do i ← inner x; l ← leaf (pos 3) (pos 4); add_i32 i l

unfoldable pub lto_main : Exit
unfolding cold_path
lto_main = print int_line (do hot ← inner (pos 1); cold ← cold_path (pos 2); add_i32 hot cold)
