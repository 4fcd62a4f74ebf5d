-- ===== src/Faults/Status.antt =====
-- How src/printer.c and src/runner.c read a wait status and a policy summary.
use p101_test.Base.{ℕ, Bool, ◌&&◌, ◌||◌, not, ◌==◌, if◌then◌else◌, exited, exit_status}
use p101_test.Faults.Types.{RunResult, exit_success, exit_findings}

-- `p101_error_path_walk_status_is_success`
unfoldable pub status_is_success : ℕ → Bool
status_is_success status = exited status && exit_status status == exit_success

unfoldable pub pipeline_status_is_acceptable : ℕ → Bool
pipeline_status_is_acceptable status =
    exited status && (exit_status status == exit_success || exit_status status == exit_findings)

unfoldable pub analysis_finding_count : RunResult → ℕ
analysis_finding_count result = if result.analysis.parsed then result.analysis.findings else 0

unfoldable pub analysis_summary_unavailable : RunResult → Bool
analysis_summary_unavailable result =
    not result.resource_log_present || not result.resources.parsed || not result.analysis.parsed
