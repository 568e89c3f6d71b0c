-- ===== src/Pool/Stack/Defs.antt =====
-- A free list: handles linked from the top down to the sentinel, slot 0.
use atomsnap.Common.{ℕ, ◌<◌, ◌≡◌, refl, Bool, true, false, ◌||◌, List, [], ◌∷◌, length, arith, ◌==◌}
use atomsnap.Common.Family.{update}
use atomsnap.Word.Pair.{handle_of, depth_of}
use atomsnap.Word.Handle.{slots_per_arena, construct_handle}
use atomsnap.Pool.Memory.{Version, Arena}

abbrev pub has : ℕ → List ℕ → Bool
has i [] = false
has i (j ∷ xs) = (j == i) || has i xs

-- From the handle `h` the links lead through the distinct slots `xs` of arena `id` to its sentinel.
abbrev pub Chain : (id : ℕ) → (ℕ → Version) → (h : ℕ) → List ℕ → Type 0
Chain id slots h [] = h ≡ construct_handle id 0
Chain id slots h (i ∷ xs) =
    (h ≡ construct_handle id i)
    × (0 < i)
    × (i < slots_per_arena)
    × (has i xs ≡ false)
    × Chain id slots (slots i).link xs

-- The shared stack of an arena: the slots on it, and as many in the depth field.
pub record IsStack (id : ℕ) (arena : Arena) (xs : List ℕ) : Type 0 where
  pub chain : Chain id arena.slots (handle_of arena.top_handle) xs
  pub depth : depth_of arena.top_handle ≡ length xs

-- A chain survives changes that keep the links of its own slots.
pub Chain-same :
    (id : ℕ) (slots slots' : ℕ → Version) (h : ℕ) (xs : List ℕ)
    → ((i : ℕ) → has i xs ≡ true → (slots' i).link ≡ (slots i).link)
    → Chain id slots h xs
    → Chain id slots' h xs
Chain-same id slots slots' h [] same c = c
Chain-same id slots slots' h (i ∷ xs) same c = (
  c.0,
  c.1,
  c.2,
  c.3,
  rw (same i (ground arith))
      (Chain-same id slots slots' (slots i).link xs (λ j e. same j (ground arith)) c.4),
)

-- A change of a slot that the chain does not have.
pub Chain-update :
    (id : ℕ) (slots : ℕ → Version) (h : ℕ) (xs : List ℕ) (j : ℕ) (v : Version)
    → has j xs ≡ false
    → Chain id slots h xs
    → Chain id (update slots j v) h xs
Chain-update id slots h xs j v out =
    Chain-same id slots (update slots j v) h xs (λ i e. ground arith)

-- A slot that links to the top of a chain is the top of a longer one.
pub Chain-push :
    (id : ℕ) (slots : ℕ → Version) (h : ℕ) (xs : List ℕ) (i : ℕ) (v : Version)
    → v.link ≡ h
    → 0 < i
    → i < slots_per_arena
    → has i xs ≡ false
    → Chain id slots h xs
    → Chain id (update slots i v) (construct_handle id i) (i ∷ xs)
Chain-push id slots h xs i v e pos small out c =
    let at : (update slots i v i).link ≡ h = ground arith in
    (refl, pos, small, out, rw at (Chain-update id slots h xs i v out c))
