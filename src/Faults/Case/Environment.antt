-- ===== src/Faults/Case/Environment.antt =====
-- The environment variables of a case: what the child sees, and what is left behind.
use p101_test.Base.{
  ℕ, ◌≡◌, ◌-◌, ◌&&◌, Text, codes, Bool, true, false, Option, none, some, List, [], ◌∷◌, text_eq,
  text_eq_refl, ltb, if◌then◌else◌, take, decimal, State, All, has_failures, arith, refl,
}
use p101_test.System.{System}
use p101_test.Faults.Types.{Arguments, RunResult, exit_success, exit_trouble}
use p101_test.Faults.Library.{FaultLibrary}
use p101_test.Faults.Variables.{
  fault_variables, child_fault_call_env, child_fault_errno_env, child_fault_log_env,
  child_fault_name_env, child_fault_mode_env, child_fault_amount_env, child_fault_repeat_env,
}
use p101_test.Faults.Case.{
  unset_all, clear_fault_environment, set_number, set_optional, set_fault_environment, run_one_case,
  is_given,
}

-- `setenv` and `unsetenv` change the one variable, and `snprintf` cuts to its buffer and leaves the
-- environment alone.
pub record IsEnvironment (S : System) : Type 0 where
  pub getenv-unsetenv :
      (j k : Text) (w : S.World)
      → S.getenv j (S.unsetenv k w).2 ≡ (if text_eq j k then none else S.getenv j w)
  pub getenv-setenv :
      (j k v : Text) (w : S.World)
      → S.getenv j (S.setenv k v w).2 ≡ (if text_eq j k then some v else S.getenv j w)
  pub getenv-snprintf :
      (j : Text) (size : ℕ) (t : Text) (w : S.World)
      → S.getenv j (S.snprintf size t w).2 ≡ S.getenv j w
  pub snprintf_text :
      (size : ℕ) (t : Text) (w : S.World) → (S.snprintf size t w).0.1 ≡ take (size - 1) t

module _ (S : System) (L : FaultLibrary) (E : IsEnvironment S) where
  open S use {World, getenv}

  unset_all-keeps_none :
      (name : Text) (names : List Text) (s : State World)
      → getenv name s.world ≡ none
      → getenv name (unset_all S L names s).1.world ≡ none
  unfolding unset_all
  unset_all-keeps_none name [] s h = h
  unset_all-keeps_none name (k ∷ names) s h =
      unset_all-keeps_none name names _ (ground (arith, E.getenv-unsetenv name k s.world))

  unset_all-All :
      (names : List Text) (s : State World)
      → All (λ name. getenv name (unset_all S L names s).1.world ≡ none) names
  unfolding unset_all
  unset_all-All [] s = tt
  unset_all-All (k ∷ names) s = (
    unset_all-keeps_none k names _ (ground (arith, E.getenv-unsetenv k k s.world, text_eq_refl k)),
    unset_all-All names _,
  )

  abbrev pub IsUnset : Text → World → Type 0
  IsUnset name w = getenv name w ≡ none

  -- None of the variables through which a fault is injected, here or in a child, and of those of the call log.
  pub record NoFaultLeft (w : World) : Type 0 where
    pub call : IsUnset L.fault_call_env w × IsUnset (codes "P101_OBSERVE_CHILD_FAULT_CALL") w
    pub errno : IsUnset L.fault_errno_env w × IsUnset (codes "P101_OBSERVE_CHILD_FAULT_ERRNO") w
    pub name : IsUnset L.fault_name_env w × IsUnset (codes "P101_OBSERVE_CHILD_FAULT_NAME") w
    pub mode : IsUnset L.fault_mode_env w × IsUnset (codes "P101_OBSERVE_CHILD_FAULT_MODE") w
    pub amount : IsUnset L.fault_amount_env w × IsUnset (codes "P101_OBSERVE_CHILD_FAULT_AMOUNT") w
    pub repeat : IsUnset L.fault_repeat_env w × IsUnset (codes "P101_OBSERVE_CHILD_FAULT_REPEAT") w
    pub log : IsUnset L.fault_log_env w × IsUnset (codes "P101_OBSERVE_CHILD_FAULT_LOG") w
    pub call_log :
        IsUnset L.call_log_env w × (IsUnset L.call_log_args_env w × IsUnset L.call_log_result_env w)

  unset_all-NoFaultLeft :
      (s : State World) → NoFaultLeft (unset_all S L (fault_variables L) s).1.world
  unfolding fault_variables
  unset_all-NoFaultLeft s =
      let h = unset_all-All (fault_variables L) s in
      record {
        call = (h.0, h.1.1.1.1.1.1.1.1.1.1.0);
        errno = (h.1.0, h.1.1.1.1.1.1.1.1.1.1.1.0);
        log = (h.1.1.0, h.1.1.1.1.1.1.1.1.1.1.1.1.0);
        name = (h.1.1.1.0, h.1.1.1.1.1.1.1.1.1.1.1.1.1.0);
        mode = (h.1.1.1.1.0, h.1.1.1.1.1.1.1.1.1.1.1.1.1.1.0);
        amount = (h.1.1.1.1.1.0, h.1.1.1.1.1.1.1.1.1.1.1.1.1.1.1.0);
        repeat = (h.1.1.1.1.1.1.0, h.1.1.1.1.1.1.1.1.1.1.1.1.1.1.1.1.0);
        call_log = (h.1.1.1.1.1.1.1.0, (h.1.1.1.1.1.1.1.1.0, h.1.1.1.1.1.1.1.1.1.0));
      }

  -- Where `setenv` and `unsetenv` change the one variable, whatever else happens in a case, and on every path
  -- to its end, none of the seven variables of an injected fault, of the seven that inject it in a child, and
  -- of the three of the call log is left set.
  pub run_one_case-unset :
      (args : Arguments) (fault_index : ℕ) (s : State World)
      → NoFaultLeft (run_one_case S L args fault_index s).1.world
  unfolding run_one_case clear_fault_environment
  run_one_case-unset args fault_index s = unset_all-NoFaultLeft _

  -- A variable after it was given a value, or was left alone.
  abbrev pub override : Text → Text → Option Text → Option Text → Option Text
  override j k new old = if text_eq j k && is_given new then new else old

  getenv-setenv_override :
      (j k v : Text) (w : World) → getenv j (S.setenv k v w).2 ≡ override j k (some v) (getenv j w)
  getenv-setenv_override j k v w = ground (arith, E.getenv-setenv j k v w)

  getenv-set_number :
      (j k : Text) (n : ℕ) (s : State World)
      → getenv j (set_number S L k n s).1.world
        ≡ override j k (some (take 31 (decimal n))) (getenv j s.world)
  unfolding set_number
  getenv-set_number j k n s =
      rw (E.getenv-setenv, E.snprintf_text, E.getenv-snprintf) (ground arith)

  getenv-set_optional :
      (j k : Text) (v : Option Text) (s : State World)
      → getenv j (set_optional S L k v s).1.world ≡ override j k v (getenv j s.world)
  unfolding set_optional
  getenv-set_optional j k none s = ground arith
  getenv-set_optional j k (some v) s = rw E.getenv-setenv (ground arith)

  abbrev pub when : Bool → Text → Option Text
  when given t = if given then some t else none

  getenv-set_number_if :
      (j k : Text) (given : Bool) (n : ℕ) (s : State World)
      → getenv j ((if given then set_number S L k n else (λ t. (tt, t))) s).1.world
        ≡ override j k (when given (take 31 (decimal n))) (getenv j s.world)
  getenv-set_number_if j k true n s = getenv-set_number j k n s
  getenv-set_number_if j k false n s = ground arith

  -- Every variable after the case's variables were set.
  pub getenv-set_fault_environment :
      (j : Text) (args : Arguments) (result : RunResult) (s : State World)
      → getenv j (set_fault_environment S L args result s).1.world
        ≡ override j child_fault_call_env
            (when (ltb 0 result.fault_index) (take 31 (decimal result.fault_index)))
            (override j child_fault_errno_env
              (when (is_given args.fault_errno_str) (take 31 (decimal args.fault_errno)))
              (override j child_fault_repeat_env (some (take 31 (decimal args.fault_repeat))) (
                override j child_fault_amount_env (some (take 31 (decimal args.fault_amount))) (
                  override j child_fault_mode_env (some args.fault_mode) (
                    override j child_fault_name_env args.fault_name (
                      override j child_fault_log_env
                        (some result.fault_log_path)
                        (getenv j s.world)))))))
  unfolding set_fault_environment
  getenv-set_fault_environment j args result s = simp (
    getenv-set_number_if, getenv-setenv_override, getenv-set_optional, E.getenv-snprintf,
    E.snprintf_text,
  )

  -- Exactly the child's variables of the case, from an environment that was cleared: the injected
  -- call number only in a case with a fault, and an errno and a name only where they were given.
  pub record ChildSees (args : Arguments) (result : RunResult) (w : World) : Type 0 where
    pub call_number :
        getenv child_fault_call_env w
        ≡ when (ltb 0 result.fault_index) (take 31 (decimal result.fault_index))
    pub errno :
        getenv child_fault_errno_env w
        ≡ when (is_given args.fault_errno_str) (take 31 (decimal args.fault_errno))
    pub log : getenv child_fault_log_env w ≡ some result.fault_log_path
    pub name : getenv child_fault_name_env w ≡ args.fault_name
    pub mode : getenv child_fault_mode_env w ≡ some args.fault_mode
    pub amount : getenv child_fault_amount_env w ≡ some (take 31 (decimal args.fault_amount))
    pub repeat : getenv child_fault_repeat_env w ≡ some (take 31 (decimal args.fault_repeat))

  given_or : (new old : Option Text) → old ≡ none → (if is_given new then new else old) ≡ new
  given_or none old h = h
  given_or (some t) old h = refl

  -- The variables of the case, set in an environment where the fault variables were cleared.
  pub set_fault_environment-ChildSees :
      (args : Arguments) (result : RunResult) (s : State World)
      → All (λ name. getenv name s.world ≡ none) (fault_variables L)
      → ChildSees args result (set_fault_environment S L args result s).1.world
  unfolding text_eq fault_variables
  set_fault_environment-ChildSees args result s h = record {
    call_number = rw getenv-set_fault_environment (given_or _ _ h.1.1.1.1.1.1.1.1.1.1.0);
    errno = rw getenv-set_fault_environment (given_or _ _ h.1.1.1.1.1.1.1.1.1.1.1.0);
    log = rw getenv-set_fault_environment;
    name = rw getenv-set_fault_environment (given_or _ _ h.1.1.1.1.1.1.1.1.1.1.1.1.1.0);
    mode = rw getenv-set_fault_environment;
    amount = rw getenv-set_fault_environment;
    repeat = rw getenv-set_fault_environment;
  }

  -- An exit status of success is exactly the absence of a failure in the error object.
  pub run_one_case_status :
      (args : Arguments) (fault_index : ℕ) (s : State World)
      → let r = run_one_case S L args fault_index s in
        r.0.0 ≡ (if has_failures r.1.raised then exit_trouble else exit_success)
  unfolding run_one_case
  run_one_case_status args fault_index s = refl

  -- What the pipeline's child sees after the two steps that come before it in a case.
  pub child_environment :
      (args : Arguments) (result : RunResult) (s : State World)
      → ChildSees args result
          (set_fault_environment S L args result (clear_fault_environment S L s).1).1.world
  unfolding clear_fault_environment
  child_environment args result s =
      set_fault_environment-ChildSees args result _ (unset_all-All (fault_variables L) s)
