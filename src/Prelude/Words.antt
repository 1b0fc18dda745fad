-- ===== src/Prelude/Words.antt =====
-- Panics and machine words. The program is built with overflow checks and `panic = "abort"`, so
-- an overflow ends it as `unwrap` on an error does. `none` stands for that abort.
use Prim.Native.Nat.{ℕ, ◌+◌, ◌*◌, ◌^◌, ◌<◌}
use mathlib.Core.Path.{◌≡◌, refl}
use mathlib.Core.Option.{Option, none, some}
use mathlib.Core.List.{List, [], ◌∷◌}
use mathlib.Core.Bool.{Bool, true, false}
use native.Mathlib.Omega.{arith}
use simply_kaspa_indexer.Prelude.Tests.{ltb, if◌then◌else◌}

infixl 5 ◌>>=◌
abbrev pub ◌>>=◌ {ℓ κ} : {A : Type ℓ} {B : Type κ} → Option A → (A → Option B) → Option B
none >>= f = none
some a >>= f = f a

-- The bytes of a hash.
abbrev pub Bytes : Type 0
Bytes = List ℕ

abbrev pub u64_limit : ℕ
u64_limit = 2 ^ 64

-- `a + b` on u64.
unfoldable pub add_u64 : ℕ → ℕ → Option ℕ
add_u64 a b = if ltb (a + b) u64_limit then some (a + b) else none

-- `a * b` on u64.
unfoldable pub mul_u64 : ℕ → ℕ → Option ℕ
mul_u64 a b = if ltb (a * b) u64_limit then some (a * b) else none

pub add_u64-fits : (a b : ℕ) → a + b < u64_limit → add_u64 a b ≡ some (a + b)
unfolding add_u64
add_u64-fits a b h = ground arith

pub add_u64-eq_some : (a b : ℕ) {c : ℕ} → add_u64 a b ≡ some c → c ≡ a + b
unfolding add_u64
add_u64-eq_some a b h = ground arith

-- `is_empty`, `bool::then_some`, and `bool::then` of a closure that may panic.
abbrev pub is_empty {ℓ} : {A : Type ℓ} → List A → Bool
is_empty [] = true
is_empty (x ∷ xs) = false

abbrev pub then_some {ℓ} : {A : Type ℓ} → Bool → A → Option A
then_some b a = if b then some a else none

abbrev pub then_try {ℓ} : {A : Type ℓ} → Bool → Option A → Option (Option A)
then_try b m = if b then (m >>= λ a. some (some a)) else some none

-- Inversion of a chain that does not panic.
pub >>=-eq_some {ℓ κ} :
    {A : Type ℓ} {B : Type κ} (m : Option A) (f : A → Option B) {b : B}
    → (m >>= f) ≡ some b
    → (a : A) × (m ≡ some a) × (f a ≡ some b)
>>=-eq_some (some a) f h = (a, refl, h)
>>=-eq_some none f h = cc

pub some-injective {ℓ} : {A : Type ℓ} {a b : A} → some a ≡ some b → a ≡ b
some-injective e = cc
