-- ===== src/Lib.antt =====
-- A model of the C programs of p101-test: test-faults, which runs a command once without and then
-- with one injected failure after another, test-mutation, which checks that a test command notices
-- mutants of a project, test-command-contract, which holds a command to a contract, the
-- conformance program, which holds a library to its manifests and to what was observed of it, and the
-- receipt program, which sums up the test results of repositories.
--
-- test-faults (src/, include/): `main` (src/main.c) parses, checks and converts its options
-- (src/cli.c) and runs a campaign (src/runner.c). A case of the campaign sets the environment of the
-- child, runs p101-inspect on the command, reads which fault fired from a log (src/paths.c) and two
-- policy summaries (src/resource.c), and is printed (src/printer.c). The campaign stops behind the
-- first case whose fault did not fire.
--
-- test-mutation (components/mutation/): `main` (main.c) parses its options (cli.c), has a scan hand its
-- candidates to an observer (candidates.c), runs the test command once on the project as a baseline,
-- and then runs each mutant (execution.c): a temporary directory takes a copy of the project
-- (files.c), the mutant is spliced into the copy, the compile command of the mutated file is rewritten
-- and filtered of its output, the mutant is compiled, the test command is run on the copy, and the
-- copy is removed. The results are reported, or the candidates are listed (output.c).
--
-- test-command-contract (components/command-contract/): the program runs a command once or twice with
-- its outputs captured in files, and tests the contract of its mode: determinism, redaction of a
-- probe, limits on output and time, an expected status, or determinism of effects.
--
-- The conformance program (components/conformance/): `main` parses its options, loads a manifest of
-- functions, one of tests, one of contracts and one of faults for a platform and its macros, a
-- document of instrumentation, a model of a run and the outcomes of the fault cases into one state of
-- two tables, validates the state, and writes a receipt.
--
-- The receipt program (components/repository-receipt/): `main` parses its options, collects the
-- result files of a directory, loads them in order, judges them and writes a receipt of them.
--
-- Files:
--   Base            lists, C strings, words of `size_t`, wait statuses, and the error object's monad
--   System          the C library and the p101 libraries, as calls over an unknown world
--   Faults/Types    include/arguments.h, include/result.h, include/constants.h
--   Faults/Library  what test-faults takes from the libraries apart from effects
--   Faults/Variables the variables of the child's environment
--   Faults/Groups   `update_fault_group`; Table and Counts are on its table and its counts
--   Faults/Status   `status_is_success`, `pipeline_status_is_acceptable`, `analysis_finding_count`
--   Faults/Paths    src/paths.c; FaultLog has `read_fault_hit`, with its laws, bounds and loop
--   Faults/Policy   `read_policy_json`; Buffer has the bounds, Contents what is read
--   Faults/Printer  src/printer.c
--   Faults/Case     `run_one_case` with its environment, pipeline and result
--   Faults/Campaign `p101_error_path_walk_run`; Outcome has its status, Totals its sums
--   Faults/Cli      src/cli.c; Convert has `convert_arguments`, Usage the usage text
--   Faults/Main     src/main.c
--   Mutation/Types       components/mutation/include/mutation_check.h
--   Mutation/Candidates  `copy_text`, `operator_selected`, `candidate_observer`
--   Mutation/Paths       `rewrite_path`
--   Mutation/Apply       `apply_candidate`
--   Mutation/Compile     the options of `build_compile_command`; Filter and Items are on them
--   Mutation/Run         `spawn_arguments` and `run_command`
--   Mutation/Status      the outcome of a mutant and the status of the run
--   Mutation/Library     what the options and reports of test-mutation take from the libraries
--   Mutation/Options     components/mutation/src/cli.c; Ready is on what is accepted
--   Mutation/Report      components/mutation/src/output.c; Summary is on its counters
--   Mutation/Trees       `ignored_name`; Copies has `copy_file` and `copy_tree`, Removal `remove_tree`
--   Mutation/Command     `command_observer`, `build_compile_command`
--   Mutation/Execute     `p101_mutation_execute`; Soundness is on its result
--   Mutation/Program     components/mutation/src/main.c; Killed and Passing are on its status
--   Contract/Captured    `captured_equal`, `captured_contains`, `parse_mode`
--   Contract/Limits      the arithmetic of the output and time limits
--   Contract/Request     the words of the command line
--   Contract/Files       `read_file`, `run_command`, `remove_capture_files`
--   Contract/Checks      `emit_finding` and the contracts on one run
--   Contract/Program     the contracts on two runs, and `main`; Answers and Outcome are on them
--   Conformance/Types         the structs and constants, and the parameters of the program
--   Conformance/Fields        `split_fields`, `list_contains`; Split and Items are on them
--   Conformance/Table         `find_api`, `find_api_name`, `find_fault`; Laws is on them
--   Conformance/Lines         the loops over lines, `macro_present`; Runs, Termination are on them
--   Conformance/Manifests     the manifests of functions, tests and contracts, with Rows and Ending
--   Conformance/FaultManifest `load_fault_manifest`; Rows is on its rows
--   Conformance/Documents     `read_json_file`, `token_text`, `token_boolean`
--   Conformance/Instrumentation  `load_instrumentation`
--   Conformance/RunModel      `load_model`
--   Conformance/Outcomes      `load_outcomes`, `finding`; Steps and Matching are on them
--   Conformance/Validation    `validate_conformance`; Verdict is on it
--   Conformance/Receipt       `write_receipt`
--   Conformance/Program       the options and `main`; Outcome is on its status
--   Conformance/Invariant     the invariant of the loaded state, by parts of the program
--   Repository/Types    the struct and constants, and the parameters of the receipt program
--   Repository/Paths    `has_suffix`, `sort_paths`; Order is on the sorted paths
--   Repository/Result   `load_result`, `load_results`
--   Repository/Receipt  `write_receipt`
--   Repository/Program  the options and `main`; Passing is on its status
--   Tests           a small system, and the theorems at concrete inputs
--
-- State and errors: a function that is handed the error object is a function of a state that holds
-- what was raised and the world. A library call gives its result, the failure that it raises, if
-- any, and the next world; a call with P101_ERROR_OPTIONAL drops the failure. `goto done` is the
-- branch that skips what follows. A text is a list of bytes without the final NUL; a null pointer
-- is `none`. `size_t` sums wrap at 2 ^ 64; the loop index of the campaign is bounded by
-- MAX_FAILURES_LIMIT and does not wrap.
--
-- Fuel: the loop over the fault log has the number of lines left plus one, the loop over a policy
-- file its limit in bytes. A loop over the lines of a manifest has the number of lines left plus one,
-- a loop over a directory the number of entries left plus one, a loop over a copied file the number of
-- reads left plus one, and the loop over a buffer its length. The depth of a tree and the polling of
-- a child take their fuel as an argument. The loop over the cases has one round for each failure to
-- try, and the loop over options follows the list that getopt gives. In test-mutation, `none` also
-- stands for a read or write through a null pointer, which the source does where memory runs out.
--
-- Not modelled: the memory that is freed, the tracer, and the test hooks that are compiled under
-- P101_ERROR_PATH_WALK_TESTING.
pub mod Base
pub mod System
pub mod Faults
pub mod Mutation
pub mod Contract
pub mod Conformance
pub mod Repository
pub mod Tests
