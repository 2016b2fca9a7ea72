-- ===== src/Base/Outcome.antt =====
-- How a step of the simulator ends: with a value, or with one of the exceptions of exception.h,
-- that of a `new` of a negative number of elements, an `exit`, or behaviour that C++ leaves undefined. Nothing in the program catches an
-- exception, so a trap is the end of the run.
use Prim.Native.Nat.{ℕ}
use mathlib.Core.Path.{◌≡◌}

pub data Trap : Type 0 where
  trap_illegal_instruction : Trap
  trap_instruction_address_misaligned : ℕ → Trap
  invalid_address no_permission : ℕ → ℕ → Trap
  exited : ℕ → Trap
  bad_array_new_length undefined : Trap

pub data Result {ℓ} (A : Type ℓ) : Type ℓ where
  ok : A → Result A
  trap : Trap → Result A

infixl 5 ◌>>=◌
abbrev pub ◌>>=◌ {ℓ κ} : {A : Type ℓ} {B : Type κ} → Result A → (A → Result B) → Result B
ok a >>= f = f a
trap e >>= f = trap e

-- The run ends normally, in a value that satisfies `P`.
abbrev pub Returns {ℓ κ} : {A : Type ℓ} → Result A → (A → Type κ) → Type (ℓ ⊔ κ)
Returns {A} r P = (a : A) × (r ≡ ok a) × P a

-- Whatever value is returned satisfies `P`; a trap returns none.
abbrev pub Keeps {ℓ κ} : {A : Type ℓ} → (A → Type κ) → Result A → Type κ
Keeps P (ok a) = P a
Keeps P (trap e) = Unit

pub Keeps-bind {ℓ κ μ ν} :
    {A : Type ℓ} {B : Type κ} (P : A → Type μ) (Q : B → Type ν) (r : Result A) (f : A → Result B)
    → Keeps P r
    → ((a : A) → P a → Keeps Q (f a))
    → Keeps Q (r >>= f)
Keeps-bind P Q (ok a) f h k = k a h
Keeps-bind P Q (trap e) f h k = tt

-- Where nothing need be known of the value that is bound.
pub Keeps-then {ℓ κ ν} :
    {A : Type ℓ} {B : Type κ} (Q : B → Type ν) (r : Result A) (f : A → Result B)
    → ((a : A) → Keeps Q (f a))
    → Keeps Q (r >>= f)
Keeps-then Q (ok a) f k = k a
Keeps-then Q (trap e) f k = tt

pub Keeps-weaken {ℓ κ ν} :
    {A : Type ℓ} (P : A → Type κ) (Q : A → Type ν) (r : Result A)
    → ((a : A) → P a → Q a)
    → Keeps P r
    → Keeps Q r
Keeps-weaken P Q (ok a) f h = f a h
Keeps-weaken P Q (trap e) f h = tt

-- A step that returns, in front of the rest.
pub >>=-ok {ℓ κ} :
    {A : Type ℓ} {B : Type κ} (r : Result A) (f : A → Result B) {a : A} {s : Result B}
    → r ≡ ok a
    → f a ≡ s
    → (r >>= f) ≡ s
>>=-ok r f h k = rw h k

pub >>=-trap {ℓ κ} :
    {A : Type ℓ} {B : Type κ} (r : Result A) (f : A → Result B) {t : Trap}
    → r ≡ trap t
    → (r >>= f) ≡ trap t
>>=-trap r f h = rw h
