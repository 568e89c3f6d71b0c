-- ===== src/Common/Family.antt =====
-- Memory as functions of an address: a store at one address, and the sum of a measure over a range.
use Prim.Native.Nat.{ℕ, zero, suc, ◌+◌, ◌≤◌, ◌<◌}
use mathlib.Core.Path.{◌≡◌, refl, ◌∙◌, subst, fun_ext}
use mathlib.Core.Logic.{ite, ◌≢◌}
use native.Mathlib.Decide.{dec_lt, ℕ_discrete}
use native.Mathlib.Omega.{arith}

-- The function with another value at one address.
abbrev pub update {ℓ} : {B : Type ℓ} → (mem : ℕ → B) → (at : ℕ) → B → ℕ → B
update mem at new there = ite (ℕ_discrete at there) new (mem there)

-- A load from the address of the last store.
pub update_self {ℓ} : {B : Type ℓ} (mem : ℕ → B) (at : ℕ) (new : B) → update mem at new at ≡ new
update_self mem at new = ground arith

-- The second of two stores to one address.
pub update-update {ℓ} :
    {B : Type ℓ} (mem : ℕ → B) (at : ℕ) (old new : B)
    → update (update mem at old) at new ≡ update mem at new
update-update mem at old new = fun_ext λ there. ground arith

-- What an address adds to the sum over the first `k`.
abbrev share : (at k x : ℕ) → ℕ
share at k x = ite (dec_lt at k) x 0

module _ {ℓ} {B : Type ℓ} (measure : B → ℕ) where
  pub total : ℕ → (ℕ → B) → ℕ
  total zero mem = 0
  total (suc k) mem = measure (mem k) + total k mem

  -- One address adds at most the sum.
  pub le-total : (k : ℕ) (mem : ℕ → B) (at : ℕ) → at < k → measure (mem at) ≤ total k mem
  unfolding total
  le-total zero mem at inside = absurd (omega arith)
  le-total (suc k) mem at inside = elim (ℕ_discrete at k) [
    | yes last ↦ rw last (omega arith)
    | no before ↦ omega (arith, le-total k mem at)
  ]

  share-update :
      (k : ℕ) (mem : ℕ → B) (at : ℕ) (new : B)
      → total k (update mem at new) + share at k (measure (mem at))
        ≡ total k mem + share at k (measure new)
  unfolding total
  share-update zero mem at new = ground arith
  share-update (suc k) mem at new = ground (arith, share-update k mem at new)

  -- A store replaces what its address adds.
  pub total-update :
      (k : ℕ) (mem : ℕ → B) (at : ℕ) (new : B)
      → at < k
      → total k (update mem at new) + measure (mem at) ≡ total k mem + measure new
  total-update k mem at new inside = ground (arith, share-update k mem at new)

  pub total-eq-zero : (k : ℕ) (mem : ℕ → B) → ((at : ℕ) → measure (mem at) ≡ 0) → total k mem ≡ 0
  unfolding total
  total-eq-zero zero mem none_there = refl
  total-eq-zero (suc k) mem none_there = omega (arith, none_there k, total-eq-zero k mem none_there)

  pub total-le : ((b : B) → measure b ≤ 1) → (k : ℕ) (mem : ℕ → B) → total k mem ≤ k
  unfolding total
  total-le unit zero mem = omega arith
  total-le unit (suc k) mem = omega (arith, total-le unit k mem, unit (mem k))

-- A predicate after a store: on the new value at its address, and on the old values elsewhere.
pub update_cases {ℓ} :
    {B : Type ℓ} (P : ℕ → B → Type 0) (mem : ℕ → B) (at : ℕ) (new : B)
    → P at new
    → ((there : ℕ) → at ≢ there → P there (mem there))
    → (there : ℕ) → P there (update mem at new there)
update_cases P mem at new here elsewhere there =
    elim (ℕ_discrete at there) as (λ d. P there (ite d new (mem there))) [
      | yes e ↦ subst (λ k. P k new) e here
      | no ne ↦ elsewhere there ne
    ]

-- The same for two families with a store at the same address.
pub update_both {ℓ κ} :
    {B : Type ℓ} {C : Type κ} (P : ℕ → B → C → Type 0) (f : ℕ → B) (g : ℕ → C) (at : ℕ) (b : B)
    (c : C)
    → P at b c
    → ((there : ℕ) → at ≢ there → P there (f there) (g there))
    → (there : ℕ) → P there (update f at b there) (update g at c there)
update_both P f g at b c here elsewhere there =
    elim (ℕ_discrete at there) as (λ d. P there (ite d b (f there)) (ite d c (g there))) [
      | yes e ↦ subst (λ k. P k b c) e here
      | no ne ↦ elsewhere there ne
    ]

-- The sum of a family of numbers.
abbrev pub sum : ℕ → (ℕ → ℕ) → ℕ
sum = total (λ x. x)

pub sum-same : (k : ℕ) (f g : ℕ → ℕ) → ((j : ℕ) → j < k → f j ≡ g j) → sum k f ≡ sum k g
unfolding total
sum-same zero f g same = refl
sum-same (suc k) f g same =
    omega (arith, same k (omega arith), sum-same k f g (λ j lt. same j (omega (arith, lt))))

-- One number grows by one.
pub sum-suc :
    (k : ℕ) (f g : ℕ → ℕ) (at : ℕ)
    → at < k
    → g at ≡ f at + 1
    → ((j : ℕ) → at ≢ j → g j ≡ f j)
    → sum k g ≡ sum k f + 1
sum-suc k f g at inside more same =
    let one : sum k g ≡ sum k (update f at (g at)) =
      sum-same k g (update f at (g at)) (λ j lt. ground (arith, same j)) in
    omega (arith, one, total-update (λ x. x) k f at (g at) inside, more)

pub sum-zero : (k : ℕ) (f : ℕ → ℕ) → ((j : ℕ) → j < k → f j ≡ 0) → sum k f ≡ 0
sum-zero k f zeros = sum-same k f (λ j. 0) zeros ∙ total-eq-zero (λ x. x) k (λ j. 0) (λ j. refl)
