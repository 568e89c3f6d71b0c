-- ===== src/Pool/Stack/Bound.antt =====
-- A free list cannot be longer than the arena: its slots are distinct.
use atomsnap.Common.{
  ℕ, zero, suc, ◌+◌, ◌≤◌, ◌<◌, ◌≡◌, refl, false, List, [], ◌∷◌, length, arith, ◌==◌, if◌then◌else◌,
}
use atomsnap.Word.Handle.{slots_per_arena}
use atomsnap.Pool.Memory.{Version}
use atomsnap.Pool.Stack.Defs.{has, Chain}

-- Distinct numbers from 1 to `n`.
abbrev pub Distinct : ℕ → List ℕ → Type 0
Distinct n [] = Unit {0}
Distinct n (i ∷ xs) = (0 < i) × (i ≤ n) × (has i xs ≡ false) × Distinct n xs

-- The list less the first `i`.
remove : ℕ → List ℕ → List ℕ
remove i [] = []
remove i (j ∷ xs) = if j == i then xs else j ∷ remove i xs

has-remove : (i j : ℕ) (xs : List ℕ) → has j xs ≡ false → has j (remove i xs) ≡ false
unfolding remove
has-remove i j [] h = refl
has-remove i j (k ∷ xs) h = ground (arith, has-remove i j xs)

length-remove : (i : ℕ) (xs : List ℕ) → length xs ≤ length (remove i xs) + 1
unfolding remove
length-remove i [] = omega arith
length-remove i (j ∷ xs) = ground (arith, length-remove i xs)

-- A list without `suc n` does not reach it.
Distinct-without :
    (n : ℕ) (xs : List ℕ) → Distinct (suc n) xs → has (suc n) xs ≡ false → Distinct n xs
Distinct-without n [] d h = tt
Distinct-without n (i ∷ xs) d h = (d.0, ground arith, d.2, Distinct-without n xs d.3 (ground arith))

Distinct-remove : (n : ℕ) (xs : List ℕ) → Distinct (suc n) xs → Distinct n (remove (suc n) xs)
unfolding remove
Distinct-remove n [] d = tt
Distinct-remove n (i ∷ xs) d =
    ground (arith, Distinct-without n xs d.3, Distinct-remove n xs d.3, has-remove (suc n) i xs)

pub length-Distinct : (n : ℕ) (xs : List ℕ) → Distinct n xs → length xs ≤ n
length-Distinct zero [] d = omega arith
length-Distinct zero (i ∷ xs) d = absurd (omega arith)
length-Distinct (suc n) xs d = omega (
  arith,
  length-remove (suc n) xs,
  length-Distinct n (remove (suc n) xs) (Distinct-remove n xs d),
)

pub Chain-Distinct :
    (id : ℕ) (slots : ℕ → Version) (h : ℕ) (xs : List ℕ) → Chain id slots h xs → Distinct 3275 xs
Chain-Distinct id slots h [] c = tt
Chain-Distinct id slots h (i ∷ xs) c =
    (c.1, omega arith, c.3, Chain-Distinct id slots (slots i).link xs c.4)

pub length-Chain :
    (id : ℕ) (slots : ℕ → Version) (h : ℕ) (xs : List ℕ)
    → Chain id slots h xs
    → length xs < slots_per_arena
length-Chain id slots h xs c =
    omega (arith, length-Distinct 3275 xs (Chain-Distinct id slots h xs c))
