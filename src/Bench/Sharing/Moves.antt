-- ===== src/Bench/Sharing/Moves.antt =====
-- What one step of a thread does to the values, the lock, and what the other threads know.
use atomsnap.Common.{ℕ, ◌+◌, ◌≡◌, ◌≢◌, ◌⊎◌, inl, inr, refl, subst, arith}
use atomsnap.Bench.Mutex.{
  Data, Pc, Thread, Move, lock_writer, load_value1, store_value1, load_value2, store_value2,
  unlock_writer, count, lock_reader, copy_value1, copy_value2, unlock_reader, check,
}
use atomsnap.Bench.Sharing.Invariant.{At, Locked, uncounted, shared_equal}

-- What a step keeps and makes true for its own thread.
pub Move-own :
    (i : ℕ) (m m' : Data) (t t' : Thread)
    → At i m t.prev_value t.pc
    → Locked m
    → Move i m t m' t'
    → At i m' t'.prev_value t'.pc
Move-own i m m' t t' h l (lock_writer e f g) = ground (arith, l.equal)
Move-own i m m' t t' h l (load_value1 e) = ground arith
Move-own i m m' t t' h l (store_value1 v e) = ground arith
Move-own i m m' t t' h l (load_value2 e) = ground arith
Move-own i m m' t t' h l (store_value2 v e) = ground arith
Move-own i m m' t t' h l (unlock_writer e) = ground arith
Move-own i m m' t t' h l (count e) = ground arith
Move-own i m m' t t' h l (lock_reader e f) = ground arith
Move-own i m m' t t' h l (copy_value1 e) = ground arith
Move-own i m m' t t' h l (copy_value2 v e) = ground arith
Move-own i m m' t t' h l (unlock_reader v1 v2 e) =
    let (le, shared, same, same') = subst (λ pc. At i m t.prev_value pc) e h in
    let eq = shared_equal i m l shared in (le, omega (arith, same), omega (arith, same, same', eq))
Move-own i m m' t t' h l (check v1 v2 e) = ground arith

pub Move-Locked :
    (i : ℕ) (m m' : Data) (t t' : Thread)
    → At i m t.prev_value t.pc
    → Locked m
    → Move i m t m' t'
    → Locked m'
Move-Locked i m m' t t' h l (lock_writer e f g) = record { apart = λ k j z. g j; equal = λ z. cc }
Move-Locked i m m' t t' h l (load_value1 e) = l
Move-Locked i m m' t t' h l (store_value1 v e) = record {
  apart = l.apart;
  equal = λ z. ground arith;
}
Move-Locked i m m' t t' h l (load_value2 e) = l
Move-Locked i m m' t t' h l (store_value2 v e) = record {
  apart = l.apart;
  equal = λ z. ground arith;
}
Move-Locked i m m' t t' h l (unlock_writer e) = record {
  apart = λ k j z. cc;
  equal = λ z. ground arith;
}
Move-Locked i m m' t t' h l (count e) = l
Move-Locked i m m' t t' h l (lock_reader e f) = record {
  apart = λ k j z. ground (arith, f, z);
  equal = l.equal;
}
Move-Locked i m m' t t' h l (copy_value1 e) = l
Move-Locked i m m' t t' h l (copy_value2 v e) = l
Move-Locked i m m' t t' h l (unlock_reader v1 v2 e) = record {
  apart = λ k j z. ground (arith, l.apart k j z);
  equal = l.equal;
}
Move-Locked i m m' t t' h l (check v1 v2 e) = l

-- Where thread `j` stands stays true.
pub Move-other :
    (i j : ℕ) (m m' : Data) (t t' : Thread) (prev : ℕ) (pc : Pc)
    → i ≢ j
    → At i m t.prev_value t.pc
    → Locked m
    → Move i m t m' t'
    → At j m prev pc
    → At j m' prev pc
Move-other i j m m' t t' prev pc ne h l (lock_writer e f g) k = ground (arith, k)
Move-other i j m m' t t' prev pc ne h l (load_value1 e) k = k
Move-other i j m m' t t' prev pc ne h l (store_value1 v e) k = ground (arith, k, l.apart i j)
Move-other i j m m' t t' prev pc ne h l (load_value2 e) k = k
Move-other i j m m' t t' prev pc ne h l (store_value2 v e) k = ground (arith, k, l.apart i j)
Move-other i j m m' t t' prev pc ne h l (unlock_writer e) k = ground (arith, k)
Move-other i j m m' t t' prev pc ne h l (count e) k = k
Move-other i j m m' t t' prev pc ne h l (lock_reader e f) k = ground (arith, k, ne)
Move-other i j m m' t t' prev pc ne h l (copy_value1 e) k = k
Move-other i j m m' t t' prev pc ne h l (copy_value2 v e) k = k
Move-other i j m m' t t' prev pc ne h l (unlock_reader v1 v2 e) k = ground (arith, k, ne)
Move-other i j m m' t t' prev pc ne h l (check v1 v2 e) k = k

-- What the step's thread has written grows as the first value does.
pub Move-writes :
    (i : ℕ) (m m' : Data) (t t' : Thread)
    → At i m t.prev_value t.pc
    → Move i m t m' t'
    → ((m'.value1 ≡ m.value1) × (t'.ops + uncounted t'.pc ≡ t.ops + uncounted t.pc))
      ⊎ ((m'.value1 ≡ m.value1 + 1) × (t'.ops + uncounted t'.pc ≡ t.ops + uncounted t.pc + 1))
Move-writes i m m' t t' h (lock_writer e f g) = inl (refl, ground arith)
Move-writes i m m' t t' h (load_value1 e) = inl (refl, ground arith)
Move-writes i m m' t t' h (store_value1 v e) = inr (ground arith, ground arith)
Move-writes i m m' t t' h (load_value2 e) = inl (refl, ground arith)
Move-writes i m m' t t' h (store_value2 v e) = inl (refl, ground arith)
Move-writes i m m' t t' h (unlock_writer e) = inl (refl, ground arith)
Move-writes i m m' t t' h (count e) = inl (refl, ground arith)
Move-writes i m m' t t' h (lock_reader e f) = inl (refl, ground arith)
Move-writes i m m' t t' h (copy_value1 e) = inl (refl, ground arith)
Move-writes i m m' t t' h (copy_value2 v e) = inl (refl, ground arith)
Move-writes i m m' t t' h (unlock_reader v1 v2 e) = inl (refl, ground arith)
Move-writes i m m' t t' h (check v1 v2 e) = inl (refl, ground arith)
