-- ===== src/Prelude/Outcome.antt =====
-- C++ exceptions as values. An error stands for the class of the thrown exception; `system_error` is
-- the runtime_error that the function of that name makes from errno.
use Prim.Native.Nat.{ℕ, zero, suc}
use mathlib.Core.Bool.{Bool, true, false}

pub data Error : Type 0 where
  invalid_argument overflow_error out_of_range logic_error runtime_error system_error : Error

pub data Result {ℓ} (A : Type ℓ) : Type ℓ where
  ok : A → Result A
  err : Error → Result A

-- The statements after one that may throw.
infixl 5 ◌>>=◌ ◌>>◌
abbrev pub ◌>>=◌ {ℓ κ} : {A : Type ℓ} {B : Type κ} → Result A → (A → Result B) → Result B
err thrown >>= rest = err thrown
ok value >>= rest = rest value

abbrev pub ◌>>◌ {κ} : {B : Type κ} → Result (Unit {0}) → Result B → Result B
err thrown >> rest = err thrown
ok done >> rest = rest

-- `if (test) throw e;`
abbrev pub throw_if : Bool → Error → Result (Unit {0})
throw_if test e = elim test [ true ↦ err e | false ↦ ok tt ]

-- `for (i = 0; i < n; ++i) s = body(i, s);`
unfoldable pub iterate {ℓ} : {S : Type ℓ} → ℕ → (ℕ → S → S) → S → S
iterate zero body s = s
iterate (suc n) body s = body n (iterate n body s)

-- The same loop with a body that may throw.
unfoldable pub try_iterate {ℓ} : {S : Type ℓ} → ℕ → (ℕ → S → Result S) → S → Result S
try_iterate zero body s = ok s
try_iterate (suc n) body s = try_iterate n body s >>= body n
