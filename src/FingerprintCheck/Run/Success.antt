-- ===== src/FingerprintCheck/Run/Success.antt =====
-- examples/fingerprint_check.rs: when the program succeeds.
use grindr_rs.Prelude.{
  ℕ, ◌+◌, Bool, true, false, Option, none, some, List, [], ◌∷◌, Text, if◌then◌else◌, ==_iff, ◌≡◌,
  ◌↔◌, refl, arith, All,
}
use package.grindr_rs.FingerprintCheck.Expected.{Mode, Phase, phases}
use package.grindr_rs.FingerprintCheck.Checks.{ProbeLib, Mismatch}
use package.grindr_rs.FingerprintCheck.Run.{
  Outside, chosen_modes, mismatches, failures_of, probe_failures, build_client, phase_failures,
  total_failures, main,
}

failures_of-nil : (ms : List Mismatch) → failures_of ms ≡ 0 → ms ≡ []
failures_of-nil [] e = refl
failures_of-nil (m ∷ ms) e = absurd (omega arith)

built_well :
    (built : Bool) {n others : ℕ}
    → (if built then n else 1) + others ≡ 0
    → (built ≡ true) × (n ≡ 0) × (others ≡ 0)
built_well true e = (refl, omega arith, omega arith)
built_well false e = absurd (omega arith)

module _ (lib : ProbeLib) (outside : Outside lib) where
  -- The server answered, and no check found a mismatch.
  abbrev pub Passes : Mode → Phase → Type 0
  Passes mode phase =
      (r : lib.Value) × (outside.answer mode phase ≡ some r) × (mismatches lib r mode phase ≡ [])

  abbrev pub ModePasses : Mode → Type 0
  ModePasses mode = (outside.builds (build_client mode.h1) ≡ true) × All (Passes mode) phases

  answered_well :
      (found : Option lib.Value) (mode : Mode) (phase : Phase)
      → probe_failures lib found mode phase ≡ 0
      → (r : lib.Value) × (found ≡ some r) × (mismatches lib r mode phase ≡ [])
  unfolding probe_failures
  answered_well none mode phase e = absurd (omega arith)
  answered_well (some r) mode phase e = (r, refl, failures_of-nil (mismatches lib r mode phase) e)

  probe-Passes :
      (mode : Mode) (phase : Phase)
      → (probe_failures lib (outside.answer mode phase) mode phase ≡ 0) ↔ Passes mode phase
  unfolding probe_failures
  probe-Passes mode phase =
      (λ e. answered_well (outside.answer mode phase) mode phase e, λ h. rw (h.1, h.2) refl)

  phase_failures-Passes :
      (mode : Mode) (later : List Phase)
      → (phase_failures lib outside mode later ≡ 0) ↔ All (Passes mode) later
  unfolding phase_failures
  phase_failures-Passes mode [] = (λ e. tt, λ h. refl)
  phase_failures-Passes mode (phase ∷ later) = (
    λ e. (
      (probe-Passes mode phase).0 (omega arith),
      (phase_failures-Passes mode later).0 (omega arith),
    ),
    λ h.
        let here = (probe-Passes mode phase).1 h.0 in
        let rest = (phase_failures-Passes mode later).1 h.1 in omega (arith, here, rest),
  )

  total_failures-Passes :
      (modes : List Mode) → (total_failures lib outside modes ≡ 0) ↔ All ModePasses modes
  unfolding total_failures
  total_failures-Passes [] = (λ e. tt, λ h. refl)
  total_failures-Passes (mode ∷ modes) = (
    λ e.
        let (built, no_failure, others) = built_well (outside.builds (build_client mode.h1)) e in
        (
          (built, (phase_failures-Passes mode phases).0 no_failure),
          (total_failures-Passes modes).0 others,
        ),
    λ h.
        let here = (phase_failures-Passes mode phases).1 h.0.1 in
        let rest = (total_failures-Passes modes).1 h.1 in rw h.0.0 (omega (arith, here, rest)),
  )

  -- The program succeeds exactly if every client that its arguments name could be built, and each of its two
  -- probes was answered and showed no mismatch.
  pub main-Passes :
      (args : List Text) → (main lib outside args ≡ true) ↔ All ModePasses (chosen_modes args)
  unfolding main
  main-Passes args = (
    λ e. (total_failures-Passes (chosen_modes args)).0 ((==_iff _ 0).0 e),
    λ h. (==_iff _ 0).1 ((total_failures-Passes (chosen_modes args)).1 h),
  )
