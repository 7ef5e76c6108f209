-- ===== src/Base/Outcome.antt =====
-- Exceptions as values: what a call returns, or what it raises.
use Prim.Native.String.{String}
use mathlib.Core.Path.{◌≡◌, refl}
use mathlib.Core.Bool.{Bool, true, false}

-- The exception classes of the modelled code. A message is kept where a client can tell it apart.
pub data Error : Type 0 where
  value_error runtime_error type_error integrity_error : Error
  job_content_conflict lease_lost : String → Error
  egress_error ledger_conflict ledger_finalized arithmetic_error : Error

-- What a call ends with: the value that it returns, or the exception that it raises.
pub data Result {ℓ} (A : Type ℓ) : Type ℓ where
  ok : A → Result A
  err : Error → Result A

-- `if not test: raise error`
abbrev pub guard : (test : Bool) (error : Error) → Result (Unit {0})
guard true error = ok tt
guard false error = err error

infixl 5 ◌>>=◌ ◌>>◌
-- The next statement, with the value of the first one.
abbrev pub ◌>>=◌ {ℓ κ} :
    {A : Type ℓ} {B : Type κ} → (first : Result A) → (next : A → Result B) → Result B
ok value >>= next = next value
err error >>= next = err error

-- The next statement, after one that only raises or returns.
abbrev pub ◌>>◌ {ℓ} : {A : Type ℓ} → (first : Result (Unit {0})) → (next : Result A) → Result A
first >> next = first >>= λ done. next

-- Two statements that return: each of them does.
pub >>=-eq-ok {ℓ κ} :
    {A : Type ℓ} {B : Type κ} (first : Result A) (next : A → Result B) {result : B}
    → (first >>= next) ≡ ok result
    → (value : A) × (first ≡ ok value) × (next value ≡ ok result)
>>=-eq-ok (ok value) next returns = (value, refl, returns)
>>=-eq-ok (err error) next returns = cc
