-- ===== src/Resources.antt =====
-- Values with an owner and a lifetime: demos/rosetta 40_impl_block_state, 55_builder_pattern,
-- 58_borrow_update, 59_method_counter, 101_custom_drop, 102_raii_guard, 106_cell_interior_mut,
-- 118_global_mutable_state, 124_thread_local_storage, 125_once_cell_lazy,
-- 131_waker_vtable_mechanics, 137_io_uring_submission and 139_cancellation_safety.
pub mod Cells
pub mod Guards
pub mod Locks
pub mod CellLaws
pub mod GuardLaws
pub mod LockLaws
unfoldable pub use Cells.*
unfoldable pub use Guards.*
unfoldable pub use Locks.*
