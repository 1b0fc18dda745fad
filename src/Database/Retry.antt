-- ===== src/Database/Retry.antt =====
-- database/src/client.rs: `retry_on_deadlock` and `is_deadlock`. The statement is a function of the
-- database's state; the pause between two attempts changes nothing. Of an error the code asks for
-- the code that the database gave with it, if it is a database error with a code.
use simply_kaspa_indexer.Prelude.{
  ℕ, zero, suc, ◌+◌, ◌≡◌, refl, Bool, false, ◌&&◌, Option, none, some, arith, Bytes, ltb,
  if◌then◌else◌, ◌∷◌, [],
}
use simply_kaspa_indexer.Models.{bytes_eq}

abbrev pub deadlock_max_attempts : ℕ
deadlock_max_attempts = 3

-- "40P01".
abbrev pub deadlock_code : Bytes
deadlock_code = b'4' ∷ b'0' ∷ b'P' ∷ b'0' ∷ b'1' ∷ []

-- The result of a statement.
pub data Answer (E : Type 0) : Type 0 where
  ok : ℕ → Answer E
  err : E → Answer E

-- How the whole call ends. `unreachable` is the panic behind the loop.
pub data Outcome (E S : Type 0) : Type 0 where
  returned : Answer E → S → Outcome E S
  unreachable : S → Outcome E S

unfoldable pub is_deadlock : {E : Type 0} → (E → Option Bytes) → E → Bool
is_deadlock database_code e = elim (database_code e) [
  | none ↦ false
  | some c ↦ bytes_eq c deadlock_code
]

-- Whether an answer is a deadlock.
abbrev pub deadlocked : {E : Type 0} → (E → Option Bytes) → Answer E → Bool
deadlocked database_code (ok n) = false
deadlocked database_code (err e) = is_deadlock database_code e

module _ {E S : Type 0} (database_code : E → Option Bytes) where
  -- What an attempt leads to: `next` is the rest of the loop.
  after_attempt : (S → Outcome E S) → ℕ → Answer E → S → Outcome E S
  after_attempt next attempt (ok n) s = returned (ok n) s
  after_attempt next attempt (err e) s =
      if is_deadlock database_code e && ltb attempt deadlock_max_attempts
      then next s
      else returned (err e) s

  -- `for attempt in attempt..=DEADLOCK_MAX_ATTEMPTS`, of which `left` rounds are left.
  retry_from : ℕ → ℕ → (S → Answer E × S) → S → Outcome E S
  unfolding after_attempt
  retry_from zero attempt f s = unreachable s
  retry_from (suc left) attempt f s =
      after_attempt (retry_from left (attempt + 1) f) attempt (f s).0 (f s).1

  unfoldable pub retry_on_deadlock : (S → Answer E × S) → S → Outcome E S
  unfolding retry_from
  retry_on_deadlock f s = retry_from deadlock_max_attempts 1 f s

  after_attempt_lem :
      (next : S → Outcome E S) (attempt : ℕ) (a : Answer E) (s : S)
      → after_attempt next attempt a s ≡ (
          if deadlocked database_code a && ltb attempt deadlock_max_attempts
          then next s
          else returned a s)
  unfolding after_attempt
  after_attempt_lem next attempt (ok n) s = refl
  after_attempt_lem next attempt (err e) s = refl

  -- The statement is sent once, a second time exactly when the first answer is a deadlock, and a
  -- third time exactly when the second is one too. The last answer is returned, so an error that
  -- is no deadlock comes back at once and the panic behind the loop is never met.
  pub retry_on_deadlock_attempts :
      (f : S → Answer E × S) (s : S)
      → let (first, s₁) = f s in
        let (second, s₂) = f s₁ in
        let (third, s₃) = f s₂ in
        retry_on_deadlock f s ≡ (
          if deadlocked database_code first
          then (if deadlocked database_code second then returned third s₃ else returned second s₂)
          else returned first s₁)
  unfolding retry_on_deadlock
  retry_on_deadlock_attempts f s = simp after_attempt_lem (ground arith)
