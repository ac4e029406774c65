-- ===== src/Error.antt =====
-- src/error.rs: the error type of the crate, and the result of a fallible function.
-- A `String` is a `Text`; an `i32` code is a `ℤ`. `WreqError` is what the code reads of an error
-- of the HTTP library: three predicates and its message.
pub mod Show
use grindr_rs.Prelude.{
  refl, inr, inl, ◌⊎◌, ◌≡◌, ℕ, Bool, true, false, Option, none, some, ◌||◌, Text, if◌then◌else◌,
  ◌==◌,
}
use grindr_rs.Prelude.Int.{ℤ, pos, negsuc, is_code}

pub data BlockKind : Type 0 where
  cloudflare : BlockKind
  edge : BlockKind

pub data TimeoutPhase : Type 0 where
  sending : TimeoutPhase
  headers : TimeoutPhase
  receiving : TimeoutPhase
  unfinished : TimeoutPhase

pub data BanKind : Type 0 where
  profile : BanKind
  device : BanKind
  network : BanKind
  underage : BanKind

pub record BanInfo : Type 0 where
  pub kind : BanKind
  pub code : ℤ
  pub message : Text
  pub reason : Option Text
  pub sub_reason : Option Text
  pub automated : Option Bool

pub data GrindrError : Type 0 where
  http : Text → GrindrError
  connect : Text → GrindrError
  timeout : TimeoutPhase → GrindrError
  auth : Text → GrindrError
  api : ℤ → Text → GrindrError
  unauthorized : ℤ → Text → GrindrError
  banned : BanInfo → GrindrError
  rate_limited : GrindrError
  blocked : BlockKind → GrindrError
  invalid_request : Text → GrindrError
  session_cleared : GrindrError
  media_too_large : ℕ → GrindrError

-- `BanKind::from_code`.
unfoldable pub from_code : ℤ → Option BanKind
unfolding is_code
from_code code =
    if is_code code 27
    then some profile
    else if is_code code 28
    then some device
    else if is_code code 31
    then some network
    else if is_code code 35 || is_code code 36
    then some underage
    else none

abbrev pub deprecated_client_version : ℕ
deprecated_client_version = 8

unfoldable pub refuses_client_version : GrindrError → Bool
unfolding is_code
refuses_client_version (api code message) = is_code code deprecated_client_version
refuses_client_version error = false

pub record WreqError : Type 0 where
  pub is_connect : Bool
  pub is_timeout : Bool
  pub is_request : Bool
  pub message : Text

-- `impl From<wreq::Error> for GrindrError`.
unfoldable pub from_wreq : WreqError → GrindrError
from_wreq e =
    if e.is_connect
    then connect e.message
    else if e.is_timeout
    then timeout (if e.is_request then headers else receiving)
    else http e.message

-- `Result<T, GrindrError>`, with `?` as the bind of a `do` block.
pub data Result {ℓ} (A : Type ℓ) : Type ℓ where
  ok : A → Result A
  err : GrindrError → Result A

module _ {ℓ κ} {A : Type ℓ} {B : Type κ} where
  infixl 5 ◌>>=◌
  abbrev pub ◌>>=◌ : Result A → (A → Result B) → Result B
  err error >>= next = err error
  ok value >>= next = next value

infixl 5 ◌>>◌
abbrev pub ◌>>◌ {κ} : {B : Type κ} → Result (Unit {0}) → Result B → Result B
checked >> next = checked >>= (λ done. next)

-- `Option::ok_or_else`.
abbrev pub ok_or {ℓ} : {A : Type ℓ} → Option A → GrindrError → Result A
ok_or none e = err e
ok_or (some a) e = ok a

pub Result-cases {ℓ} :
    {A : Type ℓ} (r : Result A) → ((a : A) × (r ≡ ok a)) ⊎ ((e : GrindrError) × (r ≡ err e))
Result-cases (ok a) = inl (a, refl)
Result-cases (err e) = inr (e, refl)
