-- ===== src/FingerprintCheck/Run.antt =====
-- examples/fingerprint_check.rs `main`: which clients are probed and what the exit code says.
pub mod Success
use grindr_rs.Prelude.{
  ℕ, ◌+◌, Bool, true, false, Option, none, some, List, [], ◌∷◌, ◌++◌, Text, text_eq, codes, any,
  if◌then◌else◌, ◌==◌,
}
use grindr_rs.Error.{Result}
use grindr_rs.Device.{DeviceInfo}
use grindr_rs.Headers.{HeaderLib, Header, build, build_user_agent}
use grindr_rs.Client.Emulation.{Emulation, grindr_emulation}
use package.grindr_rs.FingerprintCheck.Expected.{Mode, Phase, phases, mode_h1, mode_h2}
use package.grindr_rs.FingerprintCheck.Checks.{
  ProbeLib, Mismatch, check_tls, check_tls_extensions, check_http2,
}
use package.grindr_rs.FingerprintCheck.HeaderOrder.{check_grindr_header_order}

unfoldable pub modes_of : Bool → Bool → List Mode
modes_of true h1_only = mode_h2 ∷ mode_h1 ∷ []
modes_of false true = mode_h1 ∷ []
modes_of false false = mode_h2 ∷ []

unfoldable pub chosen_modes : List Text → List Mode
unfolding codes text_eq modes_of
chosen_modes args =
    modes_of (any (text_eq (codes "--all")) args) (any (text_eq (codes "--ws")) args)

-- The headers of the probe, after its own `connection: close`.
unfoldable pub probe_headers : HeaderLib → DeviceInfo → Result (List Header)
unfolding codes build build_user_agent
probe_headers headers device =
    build headers device (build_user_agent device (codes "Free"))
      (some (codes "Grindr3 fake-session-for-request")) (some (codes "[FREE]"))

-- What `build_client` sets of the builder of the HTTP library.
pub record ClientSettings : Type 0 where
  pub emulation : Emulation
  pub gzip : Bool
  pub deflate : Bool
  pub brotli : Bool
  pub zstd : Bool
  pub http1_only : Bool

unfoldable pub build_client : Bool → ClientSettings
build_client h1 = record {
  emulation = grindr_emulation;
  gzip = true;
  deflate = false;
  brotli = false;
  zstd = false;
  http1_only = h1;
}

abbrev pub failures_of : List Mismatch → ℕ
failures_of [] = 0
failures_of (m ∷ ms) = 1

module _ (lib : ProbeLib) where
  -- What the libraries and the server give: whether a client can be built, and what a probe answers.
  pub record Outside : Type 0 where
    pub builds : ClientSettings → Bool
    pub answer : Mode → Phase → Option lib.Value

  unfoldable pub mismatches : lib.Value → Mode → Phase → List Mismatch
  unfolding check_tls check_tls_extensions check_http2 check_grindr_header_order
  mismatches r mode phase =
      check_tls lib r mode phase
      ++ (check_tls_extensions lib r phase
          ++ ((if mode.h1 then [] else check_http2 lib r) ++ check_grindr_header_order lib r))

  unfoldable pub probe_failures : Option lib.Value → Mode → Phase → ℕ
  unfolding mismatches
  probe_failures none mode phase = 1
  probe_failures (some r) mode phase = failures_of (mismatches r mode phase)

  unfoldable pub phase_failures : Outside → Mode → List Phase → ℕ
  unfolding probe_failures
  phase_failures outside mode [] = 0
  phase_failures outside mode (phase ∷ later) =
      probe_failures (outside.answer mode phase) mode phase + phase_failures outside mode later

  unfoldable pub total_failures : Outside → List Mode → ℕ
  unfolding phase_failures build_client
  total_failures outside [] = 0
  total_failures outside (mode ∷ modes) =
      (if outside.builds (build_client mode.h1) then phase_failures outside mode phases else 1)
      + total_failures outside modes

  -- `ExitCode::SUCCESS`, or `ExitCode::FAILURE`.
  unfoldable pub main : Outside → List Text → Bool
  unfolding total_failures chosen_modes
  main outside args = total_failures outside (chosen_modes args) == 0
