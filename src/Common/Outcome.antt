-- ===== src/Common/Outcome.antt =====
-- The outcome of C code: a value, or the first undefined behaviour that the run meets.
use mathlib.Core.Path.{◌≡◌, ◌∙◌, sym, subst}
use mathlib.Core.Bool.{Bool, true, false}

pub data Fault : Type 0 where
  division_by_zero : Fault
  out_of_bounds : Fault
  null_dereference : Fault
  uninitialised_read : Fault
  signed_overflow : Fault
  assertion_failed : Fault
  out_of_fuel : Fault

pub data Run {ℓ} (A : Type ℓ) : Type ℓ where
  fault : Fault → Run A
  ok : A → Run A

infixl 5 ◌>>=◌ ◌>>◌
abbrev pub ◌>>=◌ {ℓ κ} : {A : Type ℓ} {B : Type κ} → Run A → (A → Run B) → Run B
fault why >>= next = fault why
ok value >>= next = next value

abbrev pub ◌>>◌ {ℓ κ} : {A : Type ℓ} {B : Type κ} → Run A → Run B → Run B
m >> k = m >>= λ _. k

-- Stops with the given fault unless the condition holds.
abbrev pub ensure : Bool → Fault → Run (Unit {0})
ensure true e = ok tt
ensure false e = fault e

-- `assert` of <assert.h> and of util.h.
abbrev pub check : Bool → Run (Unit {0})
check b = ensure b assertion_failed

-- The run ends normally, in a value that satisfies `Holds`.
abbrev pub Returns {ℓ κ} : {A : Type ℓ} → Run A → (A → Type κ) → Type (ℓ ⊔ κ)
Returns {A} run Holds = (value : A) × (run ≡ ok value) × Holds value

ok-injective {ℓ} : {A : Type ℓ} {a b : A} → ok a ≡ ok b → a ≡ b
ok-injective e = cc

-- What a run ends in is the value that an equation says.
pub Returns-ok {ℓ κ} :
    {A : Type ℓ} {P : A → Type κ} {run : Run A} {a : A} → Returns run P → run ≡ ok a → P a
Returns-ok {P} (value, ran, holds) e = subst P (ok-injective (sym ran ∙ e)) holds

-- The same result.
pub Returns-as {ℓ κ} :
    {A : Type ℓ} {P : A → Type κ} {r s : Run A} → r ≡ s → Returns s P → Returns r P
Returns-as e (value, run, holds) = (value, e ∙ run, holds)
