-- ===== src/Pool/Shared/Owner.antt =====
-- The steps of the owner keep the invariant.
use atomsnap.Common.{
  ℕ, ◌<◌, ◌≡◌, ◌≢◌, inl, inr, refl, ap, sym, ◌∙◌, subst, true, false, List, [], ◌∷◌, ◌==◌, ==_ne,
  if◌then◌else◌, arith,
}
use atomsnap.Common.Family.{update, le-total}
use atomsnap.Word.Pair.{handle_null, handle_of}
use atomsnap.Word.Handle.{slot_idx, max_arenas, construct_handle, construct_handle_fields}
use atomsnap.Pool.Stack.Defs.{has, Chain, Chain-update}
use atomsnap.Pool.Shared.Machine.{idle, stealing, failed, System, link_at, with_link}
use atomsnap.Pool.Shared.Invariant.{pushes, IsUsable, IsLocal, OwnerStands, Inv}
use atomsnap.Pool.Shared.Frame.{Stands-top, Stands-linked}

module _ (n id : ℕ) (small : id < max_arenas) (s : System) (inv : Inv n id s) where
  pub look-Inv :
      s.local_top ≡ handle_null
      → handle_of s.arena.top_handle ≢ construct_handle id 0
      → Inv n id (record s { owner = stealing })
  look-Inv drained more = record {
    shared = inv.shared;
    own_list = inv.own_list;
    stack = inv.stack;
    local = inv.local;
    one_place = inv.one_place;
    used_at = inv.used_at;
    used_link = inv.used_link;
    stands = inv.stands;
    apart = inv.apart;
    owner_stands = (drained, more);
  }

  -- No list starts at HANDLE_NULL.
  Chain-ne_null : (top : ℕ) (ys : List ℕ) → Chain id s.arena.slots top ys → top ≢ handle_null
  Chain-ne_null top [] c e = omega (arith, construct_handle_fields id 0 small, c, e)
  Chain-ne_null top (y ∷ ys) c e = omega (arith, construct_handle_fields id y small c.2, c.0, e)

  drained_empty : s.local_top ≡ handle_null → inv.own_list ≡ []
  drained_empty e = elim inv.local [
    | inl none_there ↦ none_there.1
    | inr c ↦ absurd (Chain-ne_null s.local_top inv.own_list c e)
  ]

  pub steal-Inv :
      s.owner ≡ stealing
      → Inv n id (record s {
        arena = record (s.arena) { top_handle = construct_handle id 0 };
        local_top = handle_of s.arena.top_handle;
        owner = if handle_of s.arena.top_handle == construct_handle id 0 then failed else idle;
      })
  steal-Inv at =
      let o : (s.local_top ≡ handle_null) × (handle_of s.arena.top_handle ≢ construct_handle id 0) =
        subst (OwnerStands id s.arena s.local_top) at inv.owner_stands in
      let empty = drained_empty o.0 in
      let zero_fields = construct_handle_fields id 0 small (omega arith) in
      rw (==_ne (handle_of s.arena.top_handle) (construct_handle id 0) o.1) (record {
        shared = [];
        own_list = inv.shared;
        stack = record { chain = omega (arith, zero_fields); depth = omega (arith, zero_fields) };
        local = inr inv.stack.chain;
        one_place = λ k pos fits. ground (arith, empty, inv.one_place k pos fits);
        used_at = inv.used_at;
        used_link = inv.used_link;
        stands = λ j. Stands-top n id j s.arena (construct_handle id 0) (s.thr j) (inv.stands j);
        apart = inv.apart;
        owner_stands = tt;
      })

  -- Where the private list ends.
  at_sentinel :
      (top : ℕ) (ys : List ℕ)
      → slot_idx top ≡ 0
      → top ≢ handle_null
      → IsLocal id s.arena top ys
      → ys ≡ []
  at_sentinel top [] at_zero real l = refl
  at_sentinel top (y ∷ ys) at_zero real (inl l) = absurd (real l.0)
  at_sentinel top (y ∷ ys) at_zero real (inr c) =
      absurd (omega (arith, c.1, at_zero, ap slot_idx c.0, construct_handle_fields id y small c.2))

  pub drain-Inv :
      s.owner ≡ idle
      → slot_idx s.local_top ≡ 0
      → s.local_top ≢ handle_null
      → Inv n id (record s { local_top = handle_null })
  drain-Inv at at_zero real =
      let empty = at_sentinel s.local_top inv.own_list at_zero real inv.local in
      record {
        shared = inv.shared;
        own_list = [];
        stack = inv.stack;
        local = inl (refl, refl);
        one_place = λ k pos fits. ground (arith, empty, inv.one_place k pos fits);
        used_at = inv.used_at;
        used_link = inv.used_link;
        stands = inv.stands;
        apart = inv.apart;
        owner_stands = subst (OwnerStands id s.arena handle_null) (sym at) tt;
      }

  -- What `pop_local` finds at a slot.
  abbrev Pops : (ys : List ℕ) → Type 0
  Pops ys =
      (y : ℕ) × (rest : List ℕ) × (ys ≡ y ∷ rest)
      × (y ≡ slot_idx s.local_top)
      × IsUsable y
      × (s.local_top ≡ construct_handle id y)
      × (has y rest ≡ false)
      × Chain id s.arena.slots (link_at s.arena y) rest

  pops :
      (ys : List ℕ)
      → slot_idx s.local_top ≢ 0
      → s.local_top ≢ handle_null
      → IsLocal id s.arena s.local_top ys
      → Pops ys
  pops [] at_slot real (inl l) = absurd (real l.0)
  pops [] at_slot real (inr c) =
      absurd (at_slot (ap slot_idx c ∙ (construct_handle_fields id 0 small (omega arith)).1))
  pops (y ∷ ys) at_slot real (inl l) = absurd (real l.0)
  pops (y ∷ ys) at_slot real (inr c) = (
    y,
    ys,
    refl,
    sym (ap slot_idx c.0 ∙ (construct_handle_fields id y small c.2).1),
    (c.1, c.2),
    c.0,
    c.3,
    c.4,
  )

  -- A slot of the private list is in no other place.
  only_own :
      (k : ℕ)
      → IsUsable k
      → has k inv.own_list ≡ true
      → (s.used k ≡ false) × (has k inv.shared ≡ false) × ((j : ℕ) → pushes k (s.thr j) ≡ 0)
  only_own k usable own =
      let sum = inv.one_place k usable.0 usable.1 in
      (
        ground (arith, sum),
        ground (arith, sum),
        λ j. ground (arith, sum, inv.stands j, le-total (pushes k) n s.thr j),
      )

  pub pop-Inv :
      s.owner ≡ idle
      → s.local_top ≢ handle_null
      → slot_idx s.local_top ≢ 0
      → Inv n id (record s {
        arena = with_link s.arena (slot_idx s.local_top) s.local_top;
        local_top = link_at s.arena (slot_idx s.local_top);
        used = update s.used (slot_idx s.local_top) true;
      })
  pop-Inv at real at_slot =
      let (y, rest, list, slot, usable, word, out, tail) =
        pops inv.own_list at_slot real inv.local in
      let (unused, not_shared, no_push) = only_own y usable (ground (arith, list)) in
      subst
        (λ k. Inv n id (record s {
          arena = with_link s.arena k s.local_top;
          local_top = link_at s.arena k;
          used = update s.used k true;
        }))
        slot
        (record {
          shared = inv.shared;
          own_list = rest;
          stack = record {
            chain = Chain-update id s.arena.slots _ inv.shared y _ not_shared inv.stack.chain;
            depth = inv.stack.depth;
          };
          local = inr (Chain-update id s.arena.slots _ rest y _ out tail);
          one_place = λ m pos fits. ground (arith, inv.one_place m pos fits, list, out, unused);
          used_at = λ m on. ground (arith, inv.used_at m);
          used_link = λ m on. ground (arith, inv.used_link m, word);
          stands =
              λ j. Stands-linked n id j s.arena y s.local_top (s.thr j) (no_push j) (inv.stands j);
          apart = inv.apart;
          owner_stands =
              subst (OwnerStands id (with_link s.arena y s.local_top) (link_at s.arena y)) (sym at)
                tt;
        })
