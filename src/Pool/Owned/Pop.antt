-- ===== src/Pool/Owned/Pop.antt =====
-- `pop_local` takes a slot of the private list into use.
use atomsnap.Common.{
  if◌then◌else◌, ℕ, ◌<◌, ◌≡◌, inr, refl, Bool, true, false, ◌&&◌, List, ◌∷◌, arith, ◌==◌,
}
use atomsnap.Common.Family.{update}
use atomsnap.Word.Handle.{slots_per_arena, construct_handle}
use atomsnap.Pool.Memory.{Arena, Pool}
use atomsnap.Pool.Stack.Defs.{has, Chain, Chain-update, IsStack}
use atomsnap.Pool.Stack.Pop.{popped}
use atomsnap.Pool.Owned.Defs.{View, places, link_of, IsLocal, IsSplit}
use atomsnap.Pool.Owned.Frame.{with_arena_self, IsStack-slot, stacks-replace}

-- The allocation of slot `i` at place `k`.
abbrev pub use_slot : (ℕ → ℕ → Bool) → (k i : ℕ) → ℕ → ℕ → Bool
use_slot used k i j m = if (k == j) && (i == m) then true else used j m

-- The view after slot `i` is popped off the private list `i ∷ xs`.
abbrev pub take_top : View → (i : ℕ) → List ℕ → View
take_top v i xs = record v { used = use_slot v.used v.at i; own_list = xs }

module _ (top active : ℕ) (p : Pool) (v : View) (i : ℕ) (xs : List ℕ)
    (split : IsSplit top active p v)
    (distinct : (j k : ℕ) → j < v.n → k < v.n → v.addr j ≡ v.addr k → j ≡ k)
    (list : v.own_list ≡ i ∷ xs)
    (chain : Chain (v.id v.at) (p.arenas (v.addr v.at)).slots top (i ∷ xs))
    (active_at : v.at < active) where
  abbrev handle : ℕ
  handle = construct_handle (v.id v.at) i

  abbrev after : Pool
  after = popped p (v.addr v.at) i handle

  abbrev arena_after : Arena
  arena_after = record (p.arenas (v.addr v.at)) {
    slots =
        update (p.arenas (v.addr v.at)).slots i
          (record ((p.arenas (v.addr v.at)).slots i) { link = handle });
  }

  not_shared : has i (v.shared v.at) ≡ false
  not_shared = ground (arith, split.one_place v.at i active_at)

  stacks_after : (k : ℕ) → k < active → IsStack (v.id k) (after.arenas (v.addr k)) (v.shared k)
  stacks_after =
      stacks-replace p v.addr v.id v.n active v.at _ v.shared v.shared distinct
        (omega (arith, active_at, split.within)) split.within (λ k lt ne. split.stacks k lt)
        (λ k ne. refl)
        (λ lt.
          IsStack-slot (v.id v.at) (p.arenas (v.addr v.at)) (v.shared v.at) i _ not_shared
            (split.stacks v.at lt))

  one_place_after :
      (k m : ℕ) → k < active → 0 < m → m < slots_per_arena → places (take_top v i xs) k m ≡ 1
  one_place_after k m lt pos fits = ground (arith, split.one_place k m lt pos fits)

  used_link_after :
      (k m : ℕ)
      → use_slot v.used v.at i k m ≡ true
      → link_of after (v.addr k) m ≡ construct_handle (v.id k) m
  used_link_after k m on =
      ground (arith, split.used_link k m, split.idle k m, split.within, distinct v.at k)

  -- The private list less its top.
  IsLocal-after : IsLocal ((p.arenas (v.addr v.at)).slots i).link active after (take_top v i xs)
  IsLocal-after = inr (
    omega (arith, active_at, split.within),
    rw (with_arena_self p (v.addr v.at) arena_after)
        (Chain-update (v.id v.at) (p.arenas (v.addr v.at)).slots _ xs i _ chain.3 chain.4),
    λ j on. active_at,
  )

  pub top_taken :
      IsSplit
        ((p.arenas (v.addr v.at)).slots i).link
        active
        (popped p (v.addr v.at) i (construct_handle (v.id v.at) i))
        (take_top v i xs)
  top_taken = record {
    within = split.within;
    stacks = stacks_after;
    local = IsLocal-after;
    one_place = one_place_after;
    idle = λ k m more. ground (arith, split.idle k m more);
    used_at = λ k m on. ground (arith, split.used_at k m, chain.1, chain.2);
    used_link = used_link_after;
  }
