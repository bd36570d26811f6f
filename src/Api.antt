-- ===== src/Api.antt =====
-- crates/control/src/error.rs: the errors of the control API, without their messages.
pub mod Transactions
pub mod Answers
use hostlet_app.Base.{ℕ, ◌≡◌, ◌⊎◌, inl, inr, refl, Bool, true, false}
use Prim.Native.String.{String}

-- One constructor for each function of `impl ApiError`; the text is the error's code.
pub data ApiError : Type 0 where
  bad_request conflict unavailable unprocessable : String → ApiError
  unauthorized not_found precondition_required stale_revision : ApiError
  database_unavailable foundation_unavailable internal : ApiError

unfoldable pub status : ApiError → ℕ
status (bad_request _) = 400
status (conflict _) = 409
status (unavailable _) = 503
status (unprocessable _) = 422
status unauthorized = 401
status not_found = 404
status precondition_required = 428
status stale_revision = 412
status database_unavailable = 503
status foundation_unavailable = 503
status internal = 500

-- `Result<T, ApiError>`.
pub data Result {ℓ} (T : Type ℓ) : Type ℓ where
  err : ApiError → Result T
  ok : T → Result T

pub Result-cases {ℓ} :
    {T : Type ℓ} (r : Result T) → ((e : ApiError) × (r ≡ err e)) ⊎ ((t : T) × (r ≡ ok t))
Result-cases (err e) = inl (e, refl)
Result-cases (ok t) = inr (t, refl)

-- The operator `?`.
infixl 5 ◌>>=◌ ◌>>◌
module _ {ℓ κ} {T : Type ℓ} {U : Type κ} where
  abbrev pub ◌>>=◌ : Result T → (T → Result U) → Result U
  ◌>>=◌ (err failure) continue = err failure
  ◌>>=◌ (ok value) continue = continue value

abbrev pub ◌>>◌ {κ} : {U : Type κ} → Result (Unit {0}) → Result U → Result U
check >> continue = check >>= λ _. continue

-- `if !condition { return Err(failure) }`.
abbrev pub guard : Bool → ApiError → Result (Unit {0})
guard condition failure = elim condition [ true ↦ ok tt | false ↦ err failure ]
