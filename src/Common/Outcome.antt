-- ===== src/Common/Outcome.antt =====
-- What a call ends in: a value with the new state, a failed `assert` or `abort()`, or a fault,
-- which stands for undefined behaviour such as a read through NULL.
use mathlib.Core.Bool.{Bool, true, false}

pub data Outcome (S A : Type 0) : Type 0 where
  ok : A → S → Outcome S A
  stopped : Outcome S A
  fault : Outcome S A

abbrev pub Cmd : Type 0 → Type 0 → Type 0
Cmd S A = S → Outcome S A

abbrev pub pure : {S A : Type 0} → A → Cmd S A
pure = ok

abbrev pub and_then : {S A B : Type 0} → Outcome S A → (A → Cmd S B) → Outcome S B
and_then (ok a s) k = k a s
and_then stopped k = stopped
and_then fault k = fault

infixl 5 ◌>>=◌ ◌>>◌
abbrev pub ◌>>=◌ : {S A B : Type 0} → Cmd S A → (A → Cmd S B) → Cmd S B
m >>= k = λ s. and_then (m s) k

abbrev pub ◌>>◌ : {S B : Type 0} → Cmd S (Unit {0}) → Cmd S B → Cmd S B
m >> k = m >>= λ _. k

abbrev pub assert : {S : Type 0} → Bool → Cmd S (Unit {0})
assert true = ok tt
assert false = λ _. stopped

abbrev pub get : {S : Type 0} → Cmd S S
get s = ok s s

abbrev pub put : {S : Type 0} → S → Cmd S (Unit {0})
put s _ = ok tt s

abbrev pub fails : {S A : Type 0} → Cmd S A
fails s = fault
