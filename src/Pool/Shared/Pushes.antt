-- ===== src/Pool/Shared/Pushes.antt =====
-- The steps of `free_slot` keep the invariant.
use atomsnap.Common.{ℕ, ◌<◌, ◌≡◌, ap, sym, ◌∙◌, subst, true, false, ◌∷◌, arith}
use atomsnap.Common.Family.{update, total-update, le-total, update_cases}
use atomsnap.Word.Pair.{handle_of, pushed_top, pushed_top_lem}
use atomsnap.Word.Handle.{slot_idx, max_arenas, construct_handle, construct_handle_fields}
use atomsnap.Pool.Stack.Defs.{has, Chain-update, IsStack}
use atomsnap.Pool.Stack.Bound.{length-Chain}
use atomsnap.Pool.Shared.Machine.{
  Pc, ready, freeing, linking, swapping, OwnerPc, idle, stealing, failed, System, link_at,
  with_link,
}
use atomsnap.Pool.Shared.Invariant.{pushes, IsUsable, Stands, OwnerStands, Inv}
use atomsnap.Pool.Shared.Frame.{Stands-top, Stands-linked, IsLocal-linked, owner_linked, pushes_bit}

module _ (n id : ℕ) (s : System) (inv : Inv n id s) (i : ℕ) (lt : i < n) where
  -- A step that changes only where the thread stands, and not which slot it pushes.
  pub moved-Inv :
      (pc : Pc)
      → ((k : ℕ) → pushes k pc ≡ pushes k (s.thr i))
      → Stands n id i s.arena pc
      → Inv n id (record s { thr = update s.thr i pc })
  moved-Inv pc same stands = record {
    shared = inv.shared;
    own_list = inv.own_list;
    stack = inv.stack;
    local = inv.local;
    one_place = λ k pos fits.
        omega (arith, inv.one_place k pos fits, same k, total-update (pushes k) n s.thr i pc lt);
    used_at = inv.used_at;
    used_link = inv.used_link;
    stands =
        update_cases (λ j pc'. Stands n id j s.arena pc') s.thr i pc stands (λ j ne. inv.stands j);
    apart = λ j j' k on on'.
        ground (arith, inv.apart j j' k, inv.apart i j k, inv.apart i j' k, same k);
    owner_stands = inv.owner_stands;
  }

  -- A slot in use is pushed by no thread.
  unpushed : (k j : ℕ) → s.used k ≡ true → pushes k (s.thr j) ≡ 1 → ⊥
  unpushed k j on pushing =
      ground (arith, inv.one_place k, inv.used_at k on, inv.stands j, le-total (pushes k) n s.thr j)

  pub free-Inv :
      (k : ℕ)
      → s.thr i ≡ ready
      → s.used k ≡ true
      → Inv n id (record s {
        used = update s.used k false;
        thr = update s.thr i (freeing k (link_at s.arena k));
      })
  free-Inv k at on = record {
    shared = inv.shared;
    own_list = inv.own_list;
    stack = inv.stack;
    local = inv.local;
    one_place = λ m pos fits. ground (
      arith,
      inv.one_place m pos fits,
      total-update (pushes m) n s.thr i (freeing k (link_at s.arena k)) lt,
    );
    used_at = λ m still. ground (arith, inv.used_at m);
    used_link = λ m still. ground (arith, inv.used_link m);
    stands =
        update_cases (λ j pc'. Stands n id j s.arena pc') s.thr i (freeing k (link_at s.arena k))
          (lt, inv.used_at k on, inv.used_link k on) (λ j ne. inv.stands j);
    apart = λ j j' m pushing pushing'.
        ground (arith, inv.apart j j' m, unpushed k j on, unpushed k j' on);
    owner_stands = inv.owner_stands;
  }

  -- A slot that this thread pushes is in no other place.
  not_elsewhere :
      (k : ℕ)
      → pushes k (s.thr i) ≡ 1
      → IsUsable k
      → (s.used k ≡ false) × (has k inv.shared ≡ false) × (has k inv.own_list ≡ false)
  not_elsewhere k pushing usable =
      ground (arith, inv.one_place k usable.0 usable.1, le-total (pushes k) n s.thr i lt)

  pub store_link-Inv :
      (k h old : ℕ)
      → s.thr i ≡ linking k h old
      → Inv n id (record s {
        arena = with_link s.arena k (handle_of old);
        thr = update s.thr i (swapping k h old);
      })
  store_link-Inv k h old at =
      let pushing : pushes k (s.thr i) ≡ 1 = ground arith in
      let here : (i < n) × IsUsable k × (h ≡ construct_handle id k) =
        ground (arith, inv.stands i) in
      let (unused, not_shared, not_own) = not_elsewhere k pushing here.1 in
      record {
        shared = inv.shared;
        own_list = inv.own_list;
        stack = record {
          chain = Chain-update id s.arena.slots _ inv.shared k _ not_shared inv.stack.chain;
          depth = inv.stack.depth;
        };
        local =
            IsLocal-linked id s.arena s.local_top inv.own_list k (handle_of old) not_own inv.local;
        one_place = λ m pos fits. ground (
          arith,
          inv.one_place m pos fits,
          total-update (pushes m) n s.thr i (swapping k h old) lt,
        );
        used_at = inv.used_at;
        used_link = λ m on. ground (arith, inv.used_link m on);
        stands =
            update_cases (λ j pc'. Stands n id j (with_link s.arena k (handle_of old)) pc') s.thr i
              (swapping k h old) (lt, here.1, here.2, ground arith)
              (λ j ne.
                Stands-linked n id j s.arena k (handle_of old) (s.thr j)
                  (ground (arith, pushes_bit k (s.thr j), inv.apart i j k)) (inv.stands j));
        apart =
            λ j j' m on on'. ground (arith, inv.apart j j' m, inv.apart i j m, inv.apart i j' m);
        owner_stands =
            owner_linked id s.arena s.local_top k (handle_of old) s.owner inv.owner_stands;
      }

  -- The slot is on top, whatever happened to the stack since the thread read `old`, as long as the whole
  -- word is the same.
  pushed-IsStack :
      (k h : ℕ)
      → id < max_arenas
      → IsUsable k
      → h ≡ construct_handle id k
      → link_at s.arena k ≡ handle_of s.arena.top_handle
      → has k inv.shared ≡ false
      → IsStack id
          (record (s.arena) { top_handle = pushed_top s.arena.top_handle h })
          (k ∷ inv.shared)
  pushed-IsStack k h small usable named linked out =
      let (at, slot, word, ne) = construct_handle_fields id k small usable.1 in
      let top = pushed_top_lem s.arena.top_handle h (omega (arith, named, word)) in
      record {
        chain =
            (omega (arith, top, named, word), usable.0, usable.1, out, rw linked inv.stack.chain);
        depth = omega (
          arith,
          top,
          named,
          word,
          inv.stack.depth,
          length-Chain id s.arena.slots (handle_of s.arena.top_handle) inv.shared inv.stack.chain,
        );
      }

  owner_pushed :
      (k h old : ℕ)
      → id < max_arenas
      → (i < n) × IsUsable k × (h ≡ construct_handle id k) × (link_at s.arena k ≡ handle_of old)
      → s.arena.top_handle ≡ old
      → (o : OwnerPc) → OwnerStands id s.arena s.local_top o
      → OwnerStands id (record (s.arena) { top_handle = pushed_top old h }) s.local_top o
  owner_pushed k h old small here same idle o = o
  owner_pushed k h old small here same failed o = o
  owner_pushed k h old small here same stealing o =
      let (pos, fits) = here.1 in
      let fields = construct_handle_fields id k small fits in
      let zero_fields = construct_handle_fields id 0 small (omega arith) in
      let top = pushed_top_lem old h (omega (arith, here.2, fields.2)) in
      (
        o.0,
        λ e.
            let same_word : construct_handle id k ≡ construct_handle id 0 =
              omega (arith, top, e, here.2, fields.2) in
            omega (arith, ap slot_idx same_word, fields.1, zero_fields.1, pos),
      )

  pub swap_win-Inv :
      (k h old : ℕ)
      → id < max_arenas
      → s.thr i ≡ swapping k h old
      → s.arena.top_handle ≡ old
      → Inv n id (record s {
        arena = record (s.arena) { top_handle = pushed_top old h };
        thr = update s.thr i ready;
      })
  swap_win-Inv k h old small at same =
      let pushing : pushes k (s.thr i) ≡ 1 = ground arith in
      let here : (i < n)
          × IsUsable k
          × (h ≡ construct_handle id k)
          × (link_at s.arena k ≡ handle_of old) =
        ground (arith, inv.stands i) in
      let (unused, not_shared, not_own) = not_elsewhere k pushing here.1 in
      record {
        shared = k ∷ inv.shared;
        own_list = inv.own_list;
        stack =
            subst
              (λ t. IsStack id (record (s.arena) { top_handle = pushed_top t h }) (k ∷ inv.shared))
              same
              (pushed-IsStack k h small here.1 here.2 (here.3 ∙ ap handle_of (sym same))
                not_shared);
        local = inv.local;
        one_place = λ m pos fits. ground (
          arith,
          inv.one_place m pos fits,
          not_shared,
          total-update (pushes m) n s.thr i ready lt,
        );
        used_at = inv.used_at;
        used_link = inv.used_link;
        stands =
            update_cases
              (λ j pc'. Stands n id j (record (s.arena) { top_handle = pushed_top old h }) pc')
              s.thr i ready tt
              (λ j ne. Stands-top n id j s.arena (pushed_top old h) (s.thr j) (inv.stands j));
        apart = λ j j' m on on'. ground (arith, inv.apart j j' m);
        owner_stands = owner_pushed k h old small here same s.owner inv.owner_stands;
      }
