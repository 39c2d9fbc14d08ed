-- ===== src/Companions/Pipelines.antt =====
-- demos/rosetta/271 to 280: programs that check test, cache and release pipelines. The texts of the companion files are the
-- parameters, in the order in which the program includes them.
use sa_plugin_sla.Prelude.{String, ◌&&◌, [], ◌∷◌}
use sa_plugin_sla.Rust.{Exit, exit_ok, int_line}
use sa_plugin_sla.Companions.Text.{contains, begins_with, bool_as_i32}

-- 271_build_optimization_passes
abbrev pub build_optimization_passes_main : String → String → String → Exit
build_optimization_passes_main config order generated =
    let config_lists_passes =
      contains config "inline" && contains config "const-prop" && contains config "dce" in
    let order_preserves_sequence = begins_with order "inline\nconst-prop\ndce" in
    let generated_counts_passes =
      contains generated "build/optimizations/passes.toml"
      && contains generated "cache/optimizations/order.txt"
      && contains generated "#def OPTIMIZATION_PASS_COUNT = 3"
      && contains generated "@optimization_passes_count() -> i32" in
    let optimization_contract =
      config_lists_passes && order_preserves_sequence && generated_counts_passes in
    exit_ok (int_line (bool_as_i32 optimization_contract) ∷ [])

-- 272_build_sanitizer_flags
abbrev pub build_sanitizer_flags_main : String → String → String → Exit
build_sanitizer_flags_main build_config flags_config generated =
    let build_requests_sanitizers =
      contains build_config "address" && contains build_config "undefined" in
    let flags_enable_both =
      contains flags_config "address = true" && contains flags_config "undefined = true" in
    let generated_counts_flags =
      contains generated "build/sanitizer.toml"
      && contains generated "config/sanitizer/flags.toml"
      && contains generated "#def SANITIZER_FLAG_COUNT = 2" in
    let sanitizer_contract =
      build_requests_sanitizers && flags_enable_both && generated_counts_flags in
    exit_ok (int_line (bool_as_i32 sanitizer_contract) ∷ [])

-- 273_build_test_harness
abbrev pub build_test_harness_main : String → String → String → String → Exit
build_test_harness_main manifest basic ffi generated =
    let manifest_lists_cases = contains manifest "cases = [\"basic\", \"ffi\"]" in
    let cases_have_commands =
      contains basic "name = \"basic\""
      && contains basic "command = \"run\""
      && contains ffi "name = \"ffi\""
      && contains ffi "command = \"run-ffi\"" in
    let generated_indexes_cases =
      contains generated "harness/manifest.toml"
      && contains generated "harness/cases/*.toml"
      && contains generated "#def HARNESS_CASE_COUNT = 2" in
    let harness_contract = manifest_lists_cases && cases_have_commands && generated_indexes_cases in
    exit_ok (int_line (bool_as_i32 harness_contract) ∷ [])

-- 274_build_benchmark_runner
abbrev pub build_benchmark_runner_main : String → String → String → String → Exit
build_benchmark_runner_main manifest throughput latency generated =
    let manifest_lists_bench_cases =
      contains manifest "throughput" && contains manifest "latency" in
    let cases_have_sample_counts =
      contains throughput "name = \"throughput\""
      && contains throughput "samples = 128"
      && contains latency "name = \"latency\""
      && contains latency "samples = 32" in
    let generated_counts_bench_cases =
      contains generated "bench/manifest.toml"
      && contains generated "bench/cases/*.toml"
      && contains generated "#def BENCHMARK_CASE_COUNT = 2" in
    let bench_contract =
      manifest_lists_bench_cases && cases_have_sample_counts && generated_counts_bench_cases in
    exit_ok (int_line (bool_as_i32 bench_contract) ∷ [])

-- 275_build_doc_generator
abbrev pub build_doc_generator_main : String → String → String → String → Exit
build_doc_generator_main config spec api_index generated =
    let config_sets_doc_paths =
      contains config "source = \"docs\"" && contains config "output = \"generated/docs\"" in
    let docs_contain_sources =
      contains spec "collects interface comments"
      && contains api_index "sa_print_bytes"
      && contains api_index "generated doc sections" in
    let generated_mentions_docs =
      contains generated "build/docgen.toml"
      && contains generated "docs/api/index.md"
      && contains generated "#def DOC_PAGE_COUNT = 2" in
    let doc_contract = config_sets_doc_paths && docs_contain_sources && generated_mentions_docs in
    exit_ok (int_line (bool_as_i32 doc_contract) ∷ [])

-- 276_build_incremental_caching
abbrev pub build_incremental_caching_main : String → String → String → String → Exit
build_incremental_caching_main config index hashes generated =
    let config_selects_incremental =
      contains config "strategy = \"incremental\""
      && contains config "index = \"cache/index.json\"" in
    let cache_records_hashes =
      contains index "\"packages\": [\"core\", \"extras\"]"
      && contains index "cache/hashes.txt"
      && contains hashes "core=9f4d"
      && contains hashes "extras=18ac" in
    let generated_counts_cache_entries =
      contains generated "build/cache.toml"
      && contains generated "cache/index.json"
      && contains generated "#def CACHE_ENTRY_COUNT = 2" in
    let cache_contract =
      config_selects_incremental && cache_records_hashes && generated_counts_cache_entries in
    exit_ok (int_line (bool_as_i32 cache_contract) ∷ [])

-- 277_build_parallel_compilation
abbrev pub build_parallel_compilation_main : String → String → String → Exit
build_parallel_compilation_main parse_job codegen_job generated =
    let jobs_are_parallel_inputs =
      contains parse_job "name = \"parse\""
      && contains parse_job "lane = 0"
      && contains codegen_job "name = \"codegen\""
      && contains codegen_job "lane = 1" in
    let generated_mentions_jobs =
      contains generated "build/parallel/jobs/*.toml"
      && contains generated "#def PARALLEL_JOB_COUNT = 2"
      && contains generated "@parallel_schedule_count() -> i32" in
    let parallel_contract = jobs_are_parallel_inputs && generated_mentions_jobs in
    exit_ok (int_line (bool_as_i32 parallel_contract) ∷ [])

-- 278_build_reproducible_builds
abbrev pub build_reproducible_builds_main : String → String → String → Exit
build_reproducible_builds_main seed fingerprint generated =
    let seed_is_fixed = contains seed "seed = 424242" && contains seed "epoch = 0" in
    let fingerprint_matches_seed =
      contains fingerprint "seed=424242" && contains fingerprint "epoch=0" in
    let generated_mentions_repro_sources =
      contains generated "build/repro/seed.toml"
      && contains generated "cache/repro/fingerprint.txt"
      && contains generated "#def REPRO_ARTIFACT_COUNT = 2" in
    let repro_contract =
      seed_is_fixed && fingerprint_matches_seed && generated_mentions_repro_sources in
    exit_ok (int_line (bool_as_i32 repro_contract) ∷ [])

-- 279_build_artifact_caching_remote
abbrev pub build_artifact_caching_remote_main : String → String → String → Exit
build_artifact_caching_remote_main index state generated =
    let remote_index_declares_backend =
      contains index "\"backend\": \"sccache\"" && contains index "\"bucket\": \"sa-asm-builds\"" in
    let remote_state_matches_index =
      contains state "backend=sccache" && contains state "bucket=sa-asm-builds" in
    let generated_mentions_remote_cache =
      contains generated "cache/remote/index.json"
      && contains generated "cache/remote/state.txt"
      && contains generated "#def REMOTE_CACHE_COUNT = 2" in
    let remote_cache_contract =
      remote_index_declares_backend && remote_state_matches_index
      && generated_mentions_remote_cache in
    exit_ok (int_line (bool_as_i32 remote_cache_contract) ∷ [])

-- 280_build_ci_cd_integration
abbrev pub build_ci_cd_integration_main : String → String → String → String → Exit
build_ci_cd_integration_main config release verify generated =
    let config_points_to_pipeline =
      contains config "pipeline = \"release\""
      && contains config "artifact = \"generated/ci/pipeline.sa\"" in
    let workflows_cover_push_and_pr =
      contains release "name: release"
      && contains release "push:"
      && contains release "branches:"
      && contains verify "name: verify"
      && contains verify "pull_request: {}" in
    let generated_counts_workflows =
      contains generated "build/ci.toml"
      && contains generated "ci/workflows/*.yml"
      && contains generated "#def CI_WORKFLOW_COUNT = 2" in
    let ci_contract =
      config_points_to_pipeline && workflows_cover_push_and_pr && generated_counts_workflows in
    exit_ok (int_line (bool_as_i32 ci_contract) ∷ [])
