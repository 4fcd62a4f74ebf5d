-- ===== src/Faults/Variables.antt =====
-- The variables of the environment that src/runner.c sets and unsets (include/constants.h).
use p101_test.Base.{Text, codes, List, [], ◌∷◌}
use p101_test.Faults.Library.{FaultLibrary}

abbrev pub child_fault_call_env : Text
child_fault_call_env = codes "P101_OBSERVE_CHILD_FAULT_CALL"

abbrev pub child_fault_errno_env : Text
child_fault_errno_env = codes "P101_OBSERVE_CHILD_FAULT_ERRNO"

abbrev pub child_fault_log_env : Text
child_fault_log_env = codes "P101_OBSERVE_CHILD_FAULT_LOG"

abbrev pub child_fault_name_env : Text
child_fault_name_env = codes "P101_OBSERVE_CHILD_FAULT_NAME"

abbrev pub child_fault_mode_env : Text
child_fault_mode_env = codes "P101_OBSERVE_CHILD_FAULT_MODE"

abbrev pub child_fault_amount_env : Text
child_fault_amount_env = codes "P101_OBSERVE_CHILD_FAULT_AMOUNT"

abbrev pub child_fault_repeat_env : Text
child_fault_repeat_env = codes "P101_OBSERVE_CHILD_FAULT_REPEAT"

-- The variables that `clear_fault_environment` unsets, in its order.
unfoldable pub fault_variables : FaultLibrary → List Text
fault_variables L =
    L.fault_call_env ∷ L.fault_errno_env ∷ L.fault_log_env ∷ L.fault_name_env ∷ L.fault_mode_env
    ∷ L.fault_amount_env ∷ L.fault_repeat_env ∷ L.call_log_env ∷ L.call_log_args_env
    ∷ L.call_log_result_env ∷ child_fault_call_env ∷ child_fault_errno_env ∷ child_fault_log_env
    ∷ child_fault_name_env ∷ child_fault_mode_env ∷ child_fault_amount_env ∷ child_fault_repeat_env
    ∷ []
