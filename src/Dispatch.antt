-- ===== src/Dispatch.antt =====
-- The programs that choose a result by testing a request, a state or a text: demos/rosetta
-- 100_full_app, 70_integration_service, 77_http_route, 78_cli_args, 80_workflow, 84_sync_gate,
-- 88_text_index, 90_app_shell, 91_db_session, 94_graphql_router, 95_repl_shell,
-- 96_task_orchestrator, 97_sync_service, 98_build_pipeline, 99_release_bundle, 305_range_pattern_macro,
-- 306_or_pattern_macro and 307_at_binding_macro.
pub mod Requests
pub mod Gates
pub mod Patterns
pub mod Laws
unfoldable pub use Requests.*
unfoldable pub use Gates.*
unfoldable pub use Patterns.*
