-- ===== src/Bench/Places.antt =====
-- Where the blocks of `PoolAllocator` are, and that a block that is held is not given again.
use mathlib.Core.Logic.{ite}
use atomsnap.Common.{
  ℕ, ◌≡◌, refl, ap, subst, Bool, true, false, ◌||◌, Option, none, some, List, [], ◌∷◌, arith, ◌==◌,
  if◌then◌else◌, ℕ_discrete,
}
use atomsnap.Common.Family.{update}
use atomsnap.Pool.Stack.Defs.{has}
use atomsnap.Bench.Blocks.{GlobalArenaPool}

pub data Place : Type 0 where
  -- not of this allocator
  elsewhere : Place
  -- given to the program
  held : Place
  local_of : ℕ → Place
  shared_of : ℕ → Place

abbrev pub is_held : Place → Bool
is_held held = true
is_held _ = false

abbrev pub is_local : Place → ℕ → Bool
is_local (local_of t) tid = t == tid
is_local _ tid = false

abbrev pub is_shared : Place → ℕ → Bool
is_shared (shared_of t) tid = t == tid
is_shared _ tid = false

-- The distinct blocks `xs` are linked from `p` to NULL.
abbrev pub Listed : (next : ℕ → Option ℕ) → (p : Option ℕ) → List ℕ → Type 0
Listed next p [] = p ≡ none
Listed next p (x ∷ xs) = (p ≡ some x) × (has x xs ≡ false) × Listed next (next x) xs

pub record View : Type 0 where
  pub place : ℕ → Place
  pub locals : ℕ → List ℕ
  pub shareds : ℕ → List ℕ

-- The lists of the arenas, and that each block is in the place that the view says.
pub record Inv (g : GlobalArenaPool) (v : View) : Type 0 where
  pub local_at : (t : ℕ) → Listed g.next (g.local_head t) (v.locals t)
  pub shared_at : (t : ℕ) → Listed g.next (g.shared_head t) (v.shareds t)
  pub in_local : (t x : ℕ) → has x (v.locals t) ≡ is_local (v.place x) t
  pub in_shared : (t x : ℕ) → has x (v.shareds t) ≡ is_shared (v.place x) t

-- The block was not held, and is the one more that is.
abbrev pub Gives : (v v' : View) → (block : ℕ) → Type 0
Gives v v' block =
    (is_held (v.place block) ≡ false)
    × ((x : ℕ) → is_held (v'.place x) ≡ ((block == x) || is_held (v.place x)))

pub Listed-update :
    (next : ℕ → Option ℕ) (p : Option ℕ) (xs : List ℕ) (b : ℕ) (q : Option ℕ)
    → has b xs ≡ false
    → Listed next p xs
    → Listed (update next b q) p xs
Listed-update next p [] b q out l = l
Listed-update next p (x ∷ xs) b q out l =
    let kept : update next b q x ≡ next x = ground arith in
    (l.0, l.1, rw kept (Listed-update next (next x) xs b q (ground arith) l.2))

Listed-some :
    (next : ℕ → Option ℕ) (p : Option ℕ) (xs : List ℕ) (b : ℕ)
    → p ≡ some b
    → Listed next p xs
    → (ys : List ℕ) × (xs ≡ b ∷ ys) × (has b ys ≡ false) × Listed next (next b) ys
Listed-some next p [] b e l = ground (arith, e, l)
Listed-some next p (x ∷ xs) b e l =
    let same : x ≡ b = ground (arith, e, l.0) in
    (
      xs,
      ap (λ (y : ℕ). y ∷ xs) same,
      subst (λ y. has y xs ≡ false) same l.1,
      subst (λ y. Listed next (next y) xs) same l.2,
    )

pub Listed-none :
    (next : ℕ → Option ℕ) (p : Option ℕ) (xs : List ℕ) → p ≡ none → Listed next p xs → xs ≡ []
Listed-none next p [] e l = refl
Listed-none next p (x ∷ xs) e l = ground (arith, e, l.0)

-- One thread's list changes.
pub Listed-replace :
    (next : ℕ → Option ℕ) (heads : ℕ → Option ℕ) (lists : ℕ → List ℕ) (t : ℕ) (p : Option ℕ)
    (xs : List ℕ)
    → ((there : ℕ) → Listed next (heads there) (lists there))
    → Listed next p xs
    → (there : ℕ) → Listed next (update heads t p there) (update lists t xs there)
Listed-replace next heads lists t p xs others here there =
    elim (ℕ_discrete t there)
      as (λ d. Listed next (ite d p (heads there)) (ite d xs (lists there))) [
        | yes e ↦ here
        | no ne ↦ others there
      ]

is_local_lem : (p : Place) (t : ℕ) → is_local p t ≡ true → p ≡ local_of t
is_local_lem elsewhere t h = ground (arith, h)
is_local_lem held t h = ground (arith, h)
is_local_lem (local_of s) t h = ap local_of (ground (arith, h))
is_local_lem (shared_of s) t h = ground (arith, h)

is_shared_lem : (p : Place) (t : ℕ) → is_shared p t ≡ true → p ≡ shared_of t
is_shared_lem elsewhere t h = ground (arith, h)
is_shared_lem held t h = ground (arith, h)
is_shared_lem (local_of s) t h = ground (arith, h)
is_shared_lem (shared_of s) t h = ap shared_of (ground (arith, h))

module _ (g : GlobalArenaPool) (v : View) (inv : Inv g v) where
  pub local-Inv :
      (tid block : ℕ)
      → g.local_head tid ≡ some block
      → (v' : View) × Inv (record g { local_head = update g.local_head tid (g.next block) }) v'
        × Gives v v' block
  local-Inv tid block at =
      let (rest, list, out, tail) =
        Listed-some g.next (g.local_head tid) (v.locals tid) block at (inv.local_at tid) in
      let has_list : (x : ℕ) → has x (v.locals tid) ≡ ((block == x) || has x rest) =
        λ x. ap (has x) list in
      let here : v.place block ≡ local_of tid =
        is_local_lem (v.place block) tid (ground (arith, inv.in_local tid block, has_list block)) in
      (
        record v { place = update v.place block held; locals = update v.locals tid rest },
        record {
          local_at =
              Listed-replace g.next g.local_head v.locals tid (g.next block) rest inv.local_at tail;
          shared_at = inv.shared_at;
          in_local =
              λ t x. ground (arith, has_list x, out, here, inv.in_local t x, inv.in_local tid x);
          in_shared = λ t x. ground (arith, here, inv.in_shared t x);
        },
        (ground (arith, here), λ x. ground (arith, here)),
      )

  -- The shared list becomes the local one, less its first block.
  moved_place : (tid block : ℕ) → ℕ → Place
  moved_place tid block x =
      if block == x then held else (if is_shared (v.place x) tid then local_of tid else v.place x)

  pub stolen-Inv :
      (tid block : ℕ)
      → g.local_head tid ≡ none
      → g.shared_head tid ≡ some block
      → (v' : View) × Inv
          (record g {
            shared_head = update g.shared_head tid none;
            local_head = update g.local_head tid (g.next block);
          })
          v'
        × Gives v v' block
  unfolding moved_place
  stolen-Inv tid block drained at =
      let (rest, list, out, tail) =
        Listed-some g.next (g.shared_head tid) (v.shareds tid) block at (inv.shared_at tid) in
      let none_local =
        Listed-none g.next (g.local_head tid) (v.locals tid) drained (inv.local_at tid) in
      let has_none : (x : ℕ) → has x (v.locals tid) ≡ false = λ x. ap (has x) none_local in
      let has_list : (x : ℕ) → has x (v.shareds tid) ≡ ((block == x) || has x rest) =
        λ x. ap (has x) list in
      let here : v.place block ≡ shared_of tid =
        is_shared_lem (v.place block) tid
          (ground (arith, inv.in_shared tid block, has_list block)) in
      (
        record {
          place = moved_place tid block;
          locals = update v.locals tid rest;
          shareds = update v.shareds tid [];
        },
        record {
          local_at =
              Listed-replace g.next g.local_head v.locals tid (g.next block) rest inv.local_at tail;
          shared_at = Listed-replace g.next g.shared_head v.shareds tid none [] inv.shared_at refl;
          in_local = λ t x. ground (
            arith,
            has_list x,
            has_none x,
            out,
            here,
            inv.in_local t x,
            inv.in_local tid x,
            inv.in_shared tid x,
          );
          in_shared =
              λ t x. ground (arith, has_list x, here, inv.in_shared t x, inv.in_shared tid x);
        },
        (ground (arith, here), λ x. ground (arith, here)),
      )

  pub new-Inv :
      (tid block : ℕ)
      → v.place block ≡ elsewhere
      → (v' : View) × Inv (record g { owner_tid = update g.owner_tid block tid }) v'
        × Gives v v' block
  new-Inv tid block fresh = (
    record v { place = update v.place block held },
    record {
      local_at = inv.local_at;
      shared_at = inv.shared_at;
      in_local = λ t x. ground (arith, fresh, inv.in_local t x);
      in_shared = λ t x. ground (arith, fresh, inv.in_shared t x);
    },
    (ground (arith, fresh), λ x. ground (arith, fresh)),
  )
