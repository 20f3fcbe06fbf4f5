-- ===== src/Base/Errors.antt =====
-- Go's `error`: the sentinel errors of internal/dcs that callers test for with `errors.Is`, and
-- every other error with the constant part of its message. `Result` is a value or an error.
use Prim.Native.String.{String}
use mathlib.Core.Path.{◌≡◌, refl}

-- ErrNotFound, ErrExists and ErrMalformed; then the rest.
pub data Error : Type 0 where
  not_found : Error
  exists : Error
  malformed : Error
  failed : String → Error

-- What a function that returns (T, error) or error alone returns.
pub data Result {ℓ} (T : Type ℓ) : Type ℓ where
  err : Error → Result T
  ok : T → Result T

infixl 5 ◌>>=◌ ◌>>◌
-- if err != nil { return err }, and on with the value.
abbrev pub ◌>>=◌ {ℓ κ} : {T : Type ℓ} {U : Type κ} → Result T → (T → Result U) → Result U
err message >>= next = err message
ok value >>= next = next value

abbrev pub ◌>>◌ {κ} : {U : Type κ} → Result (Unit {0}) → Result U → Result U
err message >> next = err message
ok tt >> next = next

-- What succeeds as a whole succeeded in both of its parts.
pub >>=-eq-ok {ℓ κ} :
    {T : Type ℓ} {U : Type κ} (first : Result T) (next : T → Result U) {u : U}
    → (first >>= next) ≡ ok u
    → (t : T) × (first ≡ ok t) × (next t ≡ ok u)
>>=-eq-ok (err message) next stops = cc
>>=-eq-ok (ok t) next goes = (t, refl, goes)
