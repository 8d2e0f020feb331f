-- ===== src/Base/Errors.antt =====
-- common/error.hpp: `ErrCode`, and `Result<T>` with the early return of CFD_TRY as a bind.
-- An `Error` is its code: `detail` and `origin` are texts for people, which no code branches on.
use mathlib.Core.Path.{◌≡◌, refl}
use mathlib.Core.Logic.{◌⊎◌, inl, inr}
use mathlib.Core.Bool.{Bool, true, false}
use mathlib.Core.Option.{Option, none, some}

pub data ErrCode : Type 0 where
  validation auth forbidden notfound conflict gone integrity unknown_destination : ErrCode
  unavailable throttled io internal : ErrCode

-- `std::expected<T, Error>`.
pub data Result {ℓ} (T : Type ℓ) : Type ℓ where
  err : ErrCode → Result T
  ok : T → Result T

abbrev pub Void : Type 0
Void = Result (Unit {0})

-- What CFD_TRY does with the rest of the function.
abbrev pub and_then {ℓ κ} : {T : Type ℓ} {V : Type κ} → (T → Result V) → Result T → Result V
and_then rest (err code) = err code
and_then rest (ok value) = rest value

infixl 5 ◌>>=◌
abbrev pub ◌>>=◌ {ℓ κ} : {T : Type ℓ} {V : Type κ} → Result T → (T → Result V) → Result V
result >>= rest = and_then rest result

-- What CFD_TRYV does.
infixl 5 ◌>>◌
abbrev pub ◌>>◌ {κ} : {V : Type κ} → Void → Result V → Result V
result >> rest = and_then (λ _. rest) result

-- `if (b) { return fail(e); }`
abbrev pub fail_if : Bool → ErrCode → Void
fail_if true e = err e
fail_if false e = ok tt

abbrev pub is_ok {ℓ} : {A : Type ℓ} → Result A → Bool
is_ok (ok a) = true
is_ok (err e) = false

abbrev pub or_fail {ℓ} : {A : Type ℓ} → Option A → ErrCode → Result A
or_fail none e = err e
or_fail (some a) e = ok a

-- To split on a result and keep the equation.
pub Result-cases {ℓ} : {A : Type ℓ} (r : Result A) → (is_ok r ≡ false) ⊎ ((a : A) × (r ≡ ok a))
Result-cases (ok a) = inr (a, refl)
Result-cases (err code) = inl refl
