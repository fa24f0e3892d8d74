-- ===== src/Base/Errors.antt =====
-- Results of calls that return a negative error number, and of calls that may block for ever.
use mathlib.Core.Option.{Option, none, some}
use mathlib.Core.Bool.{Bool, true, false}
use esdm.Base.Tests.{if◌then◌else◌}
use mathlib.Core.Path.{◌≡◌, refl, subst}
use mathlib.Core.Logic.{◌⊎◌, inl, inr}
use Prim.Native.Nat.{ℕ}

pub data Errno : Type 0 where
  einval eagain efault eopnotsupp emsgsize enomem : Errno
  errno : ℕ → Errno

pub data Result {ℓ} (A : Type ℓ) : Type ℓ where
  ok : A → Result A
  err : Errno → Result A

-- A run of code that takes a blocking lock or loops: `none` means that it does not return.
abbrev pub Run {ℓ} : Type ℓ → Type ℓ
Run A = Option A

infixl 5 ◌>>=◌
abbrev pub ◌>>=◌ {ℓ κ} : {A : Type ℓ} {B : Type κ} → Run A → (A → Run B) → Run B
none >>= f = none
some a >>= f = f a

pub Result-cases {ℓ} :
    {A : Type ℓ} (r : Result A) → ((e : Errno) × (r ≡ err e)) ⊎ ((a : A) × (r ≡ ok a))
Result-cases (ok a) = inr (a, refl)
Result-cases (err e) = inl (e, refl)

-- Inversion of a run that returns.
pub >>=-eq-some {ℓ κ} :
    {A : Type ℓ} {B : Type κ} (m : Run A) (f : A → Run B) {b : B}
    → (m >>= f) ≡ some b
    → (a : A) × (m ≡ some a) × (f a ≡ some b)
>>=-eq-some none f h = cc
>>=-eq-some (some a) f h = (a, refl, h)

-- A run that, if it returns, returns a value with the property.
pub data Ensures {ℓ κ} {A : Type ℓ} (P : A → Type κ) : Run A → Type (ℓ ⊔ κ) where
  blocks : Ensures P none
  returns : {a : A} → P a → Ensures P (some a)

pub Ensures-bind {ℓ κ μ ν} :
    {A : Type ℓ} {B : Type κ} {P : A → Type μ} {Q : B → Type ν} {m : Run A} (f : A → Run B)
    → Ensures P m
    → ((a : A) → P a → Ensures Q (f a))
    → Ensures Q (m >>= f)
Ensures-bind f blocks k = blocks
Ensures-bind f (returns {a} x) k = k a x

pub Ensures-returned {ℓ κ} : {A : Type ℓ} {P : A → Type κ} {a : A} → Ensures P (some a) → P a
Ensures-returned (returns x) = x

pub Ensures-some {ℓ κ} :
    {A : Type ℓ} {P : A → Type κ} {m : Run A} {a : A} → Ensures P m → m ≡ some a → P a
Ensures-some {P = P} h e = Ensures-returned (subst (Ensures P) e h)

pub Ensures-if {ℓ κ} :
    {A : Type ℓ} {P : A → Type κ} (b : Bool) {m n : Run A}
    → (b ≡ true → Ensures P m)
    → (b ≡ false → Ensures P n)
    → Ensures P (if b then m else n)
Ensures-if true x y = x refl
Ensures-if false x y = y refl

-- A run that returns, with a value that has the property.
pub data Yields {ℓ κ} {A : Type ℓ} (P : A → Type κ) : Run A → Type (ℓ ⊔ κ) where
  yields : {a : A} → P a → Yields P (some a)

pub Yields-bind {ℓ κ μ ν} :
    {A : Type ℓ} {B : Type κ} {P : A → Type μ} {Q : B → Type ν} {m : Run A} (f : A → Run B)
    → Yields P m
    → ((a : A) → P a → Yields Q (f a))
    → Yields Q (m >>= f)
Yields-bind f (yields {a} x) k = k a x

pub Yields-if {ℓ κ} :
    {A : Type ℓ} {P : A → Type κ} (b : Bool) {m n : Run A}
    → (b ≡ true → Yields P m)
    → (b ≡ false → Yields P n)
    → Yields P (if b then m else n)
Yields-if true x y = x refl
Yields-if false x y = y refl

-- What it returns.
pub Yields-value {ℓ κ} :
    {A : Type ℓ} {P : A → Type κ} {m : Run A} → Yields P m → (a : A) × (m ≡ some a) × P a
Yields-value (yields {a} x) = (a, refl, x)

pub Yields-map {ℓ κ μ} :
    {A : Type ℓ} {P : A → Type κ} {Q : A → Type μ} {m : Run A}
    → Yields P m
    → ((a : A) → P a → Q a)
    → Yields Q m
Yields-map (yields {a} x) k = yields (k a x)

-- Nothing is asked of what a run returns.
pub Ensures-any {ℓ} : {A : Type ℓ} (m : Run A) → Ensures (λ (a : A). Unit {0}) m
Ensures-any none = blocks
Ensures-any (some a) = returns tt

-- What a run returns has both properties.
pub Yields-and {ℓ κ μ} :
    {A : Type ℓ} {P : A → Type κ} {Q : A → Type μ} {m : Run A}
    → Yields P m
    → Ensures Q m
    → Yields (λ a. P a × Q a) m
Yields-and (yields x) (returns y) = yields (x, y)

pub Ensures-map {ℓ κ μ} :
    {A : Type ℓ} {P : A → Type κ} {Q : A → Type μ} {m : Run A}
    → Ensures P m
    → ((a : A) → P a → Q a)
    → Ensures Q m
Ensures-map blocks k = blocks
Ensures-map (returns {a} x) k = returns (k a x)

-- The number of an error.
abbrev pub code : Errno → ℕ
code einval = 22
code eagain = 11
code efault = 14
code eopnotsupp = 95
code emsgsize = 90
code enomem = 12
code (errno n) = n
