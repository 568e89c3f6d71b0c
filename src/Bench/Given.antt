-- ===== src/Bench/Given.antt =====
-- `allocate` and `deallocate` of `PoolAllocator` against the places of the blocks.
use atomsnap.Common.{
  ℕ, zero, suc, ◌≤◌, ◌<◌, ◌≡◌, refl, ap, ◌∙◌, true, false, Option, none, some, [], ◌∷◌, arith, ltb,
}
use atomsnap.Common.Family.{update, update-update}
use atomsnap.Common.Outcome.{Outcome, ok, ◌>>=◌}
use atomsnap.Pool.Stack.Defs.{has}
use atomsnap.Bench.Blocks.{
  GlobalArenaPool, k_max_threads, data_of, block_of, new_tid, get_tid, allocate_new, take_stolen,
  take_local, allocate_in, allocate, push_shared, deallocate,
}
use atomsnap.Bench.Places.{
  elsewhere, held, shared_of, View, Inv, Gives, Listed-update, Listed-none, Listed-replace,
  local-Inv, stolen-Inv, new-Inv,
}

-- A command that gives a block that was not held.
abbrev pub Allocates : View → Outcome GlobalArenaPool ℕ → Type 0
Allocates v o =
    (block : ℕ) × (g' : GlobalArenaPool) × (v' : View) × (o ≡ ok (data_of block) g')
    × Inv g' v'
    × Gives v v' block

module _ (v : View) (tid m : ℕ) (fresh : v.place m ≡ elsewhere) where
  -- No list of the thread has a block.
  new_lem :
      (g : GlobalArenaPool)
      → Inv g v
      → g.shared_head tid ≡ none
      → Allocates v
          (allocate_new tid (some m) (record g { shared_head = update g.shared_head tid none }))
  unfolding allocate_new
  new_lem g inv none_shared =
      let drained =
        Listed-none g.next (g.shared_head tid) (v.shareds tid) none_shared (inv.shared_at tid) in
      let has_none : (x : ℕ) → has x (v.shareds tid) ≡ false = λ x. ap (has x) drained in
      let v1 : View = record v { shareds = update v.shareds tid [] } in
      let inv1 : Inv (record g { shared_head = update g.shared_head tid none }) v1 = record {
        local_at = inv.local_at;
        shared_at = Listed-replace g.next g.shared_head v.shareds tid none [] inv.shared_at refl;
        in_local = inv.in_local;
        in_shared = λ t x. ground (arith, has_none x, inv.in_shared t x);
      } in
      let (v', inv', given) = new-Inv _ v1 inv1 tid m fresh in (m, _, v', refl, inv', given)

  stolen_lem :
      (g : GlobalArenaPool) (stolen : Option ℕ)
      → Inv g v
      → g.local_head tid ≡ none
      → g.shared_head tid ≡ stolen
      → Allocates v (
          take_stolen tid
            (some m)
            stolen
            (record g { shared_head = update g.shared_head tid none }))
  unfolding take_stolen
  stolen_lem g none inv drained at = new_lem g inv at
  stolen_lem g (some block) inv drained at =
      let (v', inv', given) = stolen-Inv g v inv tid block drained at in
      (block, _, v', refl, inv', given)

  local_lem :
      (g : GlobalArenaPool) (head : Option ℕ)
      → Inv g v
      → g.local_head tid ≡ head
      → Allocates v (take_local tid (some m) head g)
  unfolding take_local
  local_lem g none inv at = stolen_lem g (g.shared_head tid) inv at refl
  local_lem g (some block) inv at =
      let (v', inv', given) = local-Inv g v inv tid block at in (block, _, v', refl, inv', given)

-- The ID of a thread, or the next one.
abbrev pub tid_of : (counter : ℕ) → Option ℕ → ℕ
tid_of counter none = counter
tid_of counter (some tid) = tid

allocate_in_lem :
    (g : GlobalArenaPool) (v : View) (tid m : ℕ)
    → Inv g v
    → tid < k_max_threads
    → v.place m ≡ elsewhere
    → Allocates v (allocate_in (some m) tid g)
unfolding allocate_in
allocate_in_lem g v tid m inv inside fresh =
    let inside' : ltb tid k_max_threads ≡ true = ground (arith, inside) in
    rw inside' (local_lem v tid m fresh g (g.local_head tid) inv refl)

allocate_as :
    (g : GlobalArenaPool) (v : View) (thread m : ℕ) (my : Option ℕ)
    → Inv g v
    → tid_of g.tid_counter my < k_max_threads
    → v.place m ≡ elsewhere
    → Allocates v ((new_tid thread my >>= allocate_in (some m)) g)
unfolding new_tid
allocate_as g v thread m none inv inside fresh =
    allocate_in_lem _ v g.tid_counter m
      (record {
        local_at = inv.local_at;
        shared_at = inv.shared_at;
        in_local = inv.in_local;
        in_shared = inv.in_shared;
      })
      inside fresh
allocate_as g v thread m (some tid) inv inside fresh = allocate_in_lem g v tid m inv inside fresh

-- `allocate` of one object, by a thread whose ID is inside the array of arenas, gives a block that was not
-- held and keeps the lists well formed. The memory that the system gives is no block of the allocator.
pub allocate_lem :
    (g : GlobalArenaPool) (v : View) (n thread m : ℕ)
    → Inv g v
    → n ≤ 1
    → tid_of g.tid_counter (g.my_tid thread) < k_max_threads
    → v.place m ≡ elsewhere
    → Allocates v (allocate n thread (some m) g)
unfolding allocate get_tid
allocate_lem g v n thread m inv one inside fresh =
    let single : ltb 1 n ≡ false = ground (arith, one) in
    rw single (allocate_as g v thread m (g.my_tid thread) inv inside fresh)

-- The loop of `deallocate`, whatever it read first.
push_shared_lem :
    (spurious owner block : ℕ) (g : GlobalArenaPool)
    → push_shared spurious owner block (g.shared_head owner) g
      ≡ ok tt (record g {
        next = update g.next block (g.shared_head owner);
        shared_head = update g.shared_head owner (some block);
      })
unfolding push_shared
push_shared_lem zero owner block g = refl
push_shared_lem (suc spurious) owner block g =
    push_shared_lem spurious owner block
      (record g { next = update g.next block (g.shared_head owner) })
    ∙ ap
        (λ (f : ℕ → Option ℕ).
          ok tt (record g { next = f; shared_head = update g.shared_head owner (some block) }))
        (update-update g.next block (g.shared_head owner) (g.shared_head owner))

-- `deallocate` of one object that is held, whose owner has an arena: its block is on the shared list of its
-- owner, whatever the thread that frees it and the number of failures of the weak compare-exchange, and the
-- lists are well formed.
pub deallocate_lem :
    (g : GlobalArenaPool) (v : View) (spurious n block : ℕ)
    → Inv g v
    → n ≤ 1
    → g.owner_tid block < k_max_threads
    → v.place block ≡ held
    → (g' : GlobalArenaPool) × (deallocate spurious (some (data_of block)) n g ≡ ok tt g')
      × Inv g' (record v {
        place = update v.place block (shared_of (g.owner_tid block));
        shareds = update v.shareds (g.owner_tid block) (block ∷ v.shareds (g.owner_tid block));
      })
unfolding deallocate
deallocate_lem g v spurious n block inv one inside at =
    let single : ltb 1 n ≡ false = ground (arith, one) in
    let same : block_of (data_of block) ≡ block = omega arith in
    let inside' : ltb (g.owner_tid block) k_max_threads ≡ true = ground (arith, inside) in
    let owner = g.owner_tid block in
    let no_shared : (t : ℕ) → has block (v.shareds t) ≡ false =
      λ t. ground (arith, at, inv.in_shared t block) in
    let no_local : (t : ℕ) → has block (v.locals t) ≡ false =
      λ t. ground (arith, at, inv.in_local t block) in
    let stored : update g.next block (g.shared_head owner) block ≡ g.shared_head owner =
      ground arith in
    (
      record g {
        next = update g.next block (g.shared_head owner);
        shared_head = update g.shared_head owner (some block);
      },
      rw (single, same, inside') (push_shared_lem spurious owner block g),
      record {
        local_at = λ t. Listed-update g.next _ (v.locals t) block _ (no_local t) (inv.local_at t);
        shared_at =
            Listed-replace (update g.next block (g.shared_head owner)) g.shared_head v.shareds owner
              (some block) (block ∷ v.shareds owner)
              (λ t. Listed-update g.next _ (v.shareds t) block _ (no_shared t) (inv.shared_at t))
              (
                refl,
                no_shared owner,
                rw stored (
                    Listed-update g.next _ (v.shareds owner) block _ (no_shared owner)
                      (inv.shared_at owner)),
              );
        in_local = λ t x. ground (arith, at, inv.in_local t x);
        in_shared = λ t x. ground (arith, at, inv.in_shared t x);
      },
    )
