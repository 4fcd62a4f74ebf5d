-- ===== src/Mutation/Run/Polling.antt =====
-- The polling loop of components/mutation/src/execution.c.
use p101_test.Base.{
  ℕ, zero, suc, ◌+◌, ◌≤◌, ◌<◌, ◌≡◌, ◌≢◌, inl, inr, refl, sym, subst, Bool, true, false, Option,
  none, some, if_cases, Bool-cases, exited, exit_status, signaled, term_signal, State, M, call,
  has_failures, arith,
}
use p101_test.System.{System}
use p101_test.Mutation.Run.{
  Waited, reaped, running, lost, Processes, Ran, no_result, result_of, pause, react, poll,
}

-- A command that ended with a code of a byte, that ended unseen, or that was stopped at its timeout.
pub data IsRan : Ran → Type 0 where
  ended : (code : ℕ) → code ≤ 255 → IsRan (record { result = some code; timed_out = false })
  unseen : IsRan no_result
  expired : IsRan (record { result = none; timed_out = true })

result_of-IsRan : (status : ℕ) → IsRan (record { result = result_of status; timed_out = false })
unfolding result_of
result_of-IsRan status =
    if_cases (λ o. IsRan (record { result = o; timed_out = false })) (exited status)
      (λ e. ended (exit_status status) (omega arith))
      (λ e.
        if_cases (λ o. IsRan (record { result = o; timed_out = false })) (signaled status)
          (λ e'. ended (128 + term_signal status) (ground arith)) (λ e'. unseen))

module _ (S : System) (P : Processes S) where
  open S use {World}

  abbrev Gives : M World (Option Ran) → Type 0
  Gives m = (s : State World) (ran : Ran) → (m s).0 ≡ some ran → IsRan ran

  some-IsRan : (a ran : Ran) → IsRan a → some a ≡ some ran → IsRan ran
  some-IsRan a ran h e = subst (λ o. elim o [ none ↦ Unit {0} | some r ↦ IsRan r ]) e h

  pause-Gives : (rest : M World (Option Ran)) (b : Bool) → Gives rest → Gives (pause S P rest b)
  unfolding pause
  pause-Gives rest true h s ran e = some-IsRan _ ran expired e
  pause-Gives rest false h s ran e = h _ ran e

  react-Gives :
      (rest : M World (Option Ran)) (timeout : P.Timeout) (started : P.Time) (w : Waited)
      → Gives rest
      → Gives (react S P rest timeout started w)
  unfolding react
  react-Gives rest timeout started (reaped status) h s ran e =
      some-IsRan _ ran (result_of-IsRan status) e
  react-Gives rest timeout started lost h s ran e = some-IsRan _ ran unseen e
  react-Gives rest timeout started running h s ran e = elim (Bool-cases (has_failures s.raised)) [
    | inl q ↦ some-IsRan _ ran unseen (rw q at e)
    | inr q ↦ pause-Gives rest _ h _ ran (rw q at e)
  ]

  -- What the loop gives, on any fuel, is a code of a byte, no code, or a timeout without a code.
  pub poll-IsRan :
      (fuel : ℕ) (timeout : P.Timeout) (started : P.Time) (s : State World) (ran : Ran)
      → (poll S P fuel timeout started s).0 ≡ some ran
      → IsRan ran
  unfolding poll
  poll-IsRan zero timeout started s ran e = ground arith
  poll-IsRan (suc fuel) timeout started s ran e =
      react-Gives (poll S P fuel timeout started) timeout started (call P.waitpid_nohang s).0
        (λ t r q. poll-IsRan fuel timeout started t r q) (call P.waitpid_nohang s).1 ran e

  -- The world behind a round that waits, reads the clock and sleeps.
  abbrev pub round : World → World
  round w = (P.nanosleep (P.clock_gettime (P.waitpid_nohang w).2).2).2

  -- Time passes: a count of the rounds left falls with each round that is not the last.
  abbrev pub TimePasses : P.Timeout → P.Time → (World → ℕ) → Type 0
  TimePasses timeout started left =
      (w : World)
      → P.is_expired timeout started (P.clock_gettime (P.waitpid_nohang w).2).0 ≡ false
      → left (round w) < left w

  react_total :
      (rest : M World (Option Ran)) (timeout : P.Timeout) (started : P.Time) (w : Waited)
      (s : State World)
      → (P.is_expired timeout started (P.clock_gettime s.world).0 ≡ false
          → (t : State World) → t.world ≡ (P.nanosleep (P.clock_gettime s.world).2).2
          → (rest t).0 ≢ none)
      → (react S P rest timeout started w s).0 ≢ none
  unfolding react pause
  react_total rest timeout started (reaped status) s h = λ e. ground arith
  react_total rest timeout started lost s h = λ e. ground arith
  react_total rest timeout started running s h = elim (Bool-cases (has_failures s.raised)) [
    | inl q ↦ rw q (λ e. ground arith)
    | inr q ↦ elim (Bool-cases (P.is_expired timeout started (P.clock_gettime s.world).0)) [
      | inl x ↦ rw (q, x) (λ e. ground arith)
      | inr x ↦ rw (q, x) (h x _ refl)
    ]
  ]

  -- When time passes, a fuel above the rounds left is enough: the loop ends with a result.
  pub poll_total :
      (timeout : P.Timeout) (started : P.Time) (left : World → ℕ)
      → TimePasses timeout started left
      → (fuel : ℕ) (s : State World) → left s.world < fuel
      → (poll S P fuel timeout started s).0 ≢ none
  unfolding poll
  poll_total timeout started left passes zero s h = absurd (omega arith)
  poll_total timeout started left passes (suc fuel) s h =
      react_total (poll S P fuel timeout started) timeout started (call P.waitpid_nohang s).0
        (call P.waitpid_nohang s).1
        (λ x t e.
          poll_total timeout started left passes fuel t
            (subst (λ w. left w < fuel) (sym e) (falls x)))
    where
      falls :
          P.is_expired timeout started (P.clock_gettime (P.waitpid_nohang s.world).2).0 ≡ false
          → left (round s.world) < fuel
      falls x = omega (arith, passes s.world x)
