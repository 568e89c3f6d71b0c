-- ===== src/Load/Snap/Steps.antt =====
-- Every step of the backend keeps the invariant.
use atomsnap.Common.{
  ℕ, ◌<◌, ◌^◌, ◌≡◌, refl, ap, subst, false, none, some, Option-cases, inl, inr, arith,
}
use atomsnap.Common.Family.{update_cases}
use atomsnap.Protocol.Machine as Library
use atomsnap.Protocol.Machine.{Pc}
use atomsnap.Protocol.Objects.{shown_out}
use atomsnap.Load.Snap.Code.{
  Round, first_of, update_of, w_top, w_swap, r_top, r_got, r_one, r_done, System, read_ver,
  check_obj, check_ver, next_round, go,
}
use atomsnap.Load.Snap.Machine.{
  Move, inside, callback, make_version, alloc, write_v1, write_v2, set_object, exchange_version,
  next, acquire_version, read_v1, read_v2, release_version, pick, pick_fault, Role, reader, writer,
  started, init, Reach, start, later,
}
use atomsnap.Load.Snap.Invariant.{Stands, block_of, Inv, known, go-Inv}
use atomsnap.Load.Snap.Calls.{acquire-Inv, release-Inv, inside-Inv, callback-Inv}
use atomsnap.Load.Snap.Versions.{make-Inv, exchange-Inv}
use atomsnap.Load.Snap.Blocks.{alloc-Inv, write_v1-Inv, write_v2-Inv}
use atomsnap.Load.Snap.Objects.{set-Inv}

module _ {n : ℕ} {s : System} (few : n < 2 ^ 32) (inv : Inv n s) (i : ℕ) (lt : i < n) where
  next-Inv : (shards : ℕ) (r : Round) → s.user i ≡ w_swap r → Inv n (go s i (next_round shards r))
  next-Inv shards (first_of k) here =
      go-Inv few inv i lt (next_round shards (first_of k)) (ground arith) (ground arith)
        (ground arith) (ap block_of here)
  next-Inv shards (update_of seq k) here =
      go-Inv few inv i lt (next_round shards (update_of seq k)) tt refl refl (ap block_of here)

  read_v1-Inv :
      (shard : ℕ) → s.user i ≡ r_got shard → Inv n (go s i (read_ver s shard (s.lib.thr i).held))
  read_v1-Inv shard here = elim (Option-cases (s.lib.thr i).held) [
    | inl none_held ↦
        rw none_held (go-Inv few inv i lt (r_top shard) tt refl refl (ap block_of here))
    | inr (o, held_o) ↦
        let out = shown_out few inv.base i o held_o in
        let (b, f, eq) = inv.good o out (inv.base.held_shown i o held_o) in
        rw (held_o, f, inv.base.alive_at o b out f)
          (go-Inv few inv i lt (r_one shard (s.heap b).v1) (o, b, held_o, f, refl) refl refl
            (ap block_of here))
  ]

  read_v2-Inv :
      (shard v1 : ℕ)
      → s.user i ≡ r_one shard v1
      → Inv n (go s i (check_ver s shard v1 (s.lib.thr i).held))
  read_v2-Inv shard v1 here =
      let (o, b, held_o, f, v) = known few inv i lt (r_one shard v1) here in
      let out = shown_out few inv.base i o held_o in
      let (b', f', eq) = inv.good o out (inv.base.held_shown i o held_o) in
      let one : b' ≡ b = ground (arith, f, f') in
      let eq' : (s.heap b).v1 ≡ (s.heap b).v2 =
        subst (λ (x : ℕ). (s.heap x).v1 ≡ (s.heap x).v2) one eq in
      let same : check_obj s shard v1 (some b) ≡ r_done shard =
        ground (arith, v, eq', inv.base.alive_at o b out f) in
      rw (held_o, f, same) (go-Inv few inv i lt (r_done shard) tt refl refl (ap block_of here))

  Move-Inv : {shards : ℕ} {t : System} → Move shards i s t → Inv n t
  Move-Inv (inside mv busy alive) = inside-Inv few inv i lt mv busy alive
  Move-Inv (callback v at) = callback-Inv few inv i lt v at
  Move-Inv (make_version h at none_made is_free small r here) =
      make-Inv few inv i lt h at none_made is_free small r here
  Move-Inv (alloc a raw r at here free) = alloc-Inv few inv i lt a raw r here free
  Move-Inv (write_v1 r a at here) = write_v1-Inv few inv i lt r a here
  Move-Inv (write_v2 r a at here) = write_v2-Inv few inv i lt r a here
  Move-Inv (set_object h r a at here made_h) = set-Inv few inv i lt h r a here made_h
  Move-Inv (exchange_version h r at made_h here) = exchange-Inv few inv i lt h r at made_h here
  Move-Inv {shards} (next r at here) = next-Inv shards r here
  Move-Inv (acquire_version shard at none_held here) =
      acquire-Inv few inv i lt shard at none_held here
  Move-Inv (read_v1 shard at here) = read_v1-Inv shard here
  Move-Inv (read_v2 shard v1 at here) = read_v2-Inv shard v1 here
  Move-Inv (release_version h shard at held_h here) =
      release-Inv few inv i lt h shard at held_h here

module _ (n shards : ℕ) (role : ℕ → Role) where
  started_free : (r : Role) → block_of (started shards r) ≡ none
  started_free (reader rid) = refl
  started_free (writer wid) = refl

  started-Stands :
      (r : Role)
      → Stands (init shards role).object (init shards role).heap none none (started shards r)
  started-Stands (reader rid) = tt
  started-Stands (writer wid) = tt

  start_free : (j : ℕ) → block_of ((init shards role).user j) ≡ none
  start_free =
      update_cases (λ j u. block_of u ≡ none) (λ j. started shards (role j)) 0 (w_top (first_of 0))
        refl (λ j ne. started_free (role j))

  start-Inv : Inv n (init shards role)
  start-Inv = record {
    shown = λ _. false;
    base = record {
      reach = Library.start;
      fresh_hidden = λ j h e. refl;
      held_shown = λ j h e. ground (arith, e);
      held_inside = λ j h e. ground (arith, e);
      gate_shown = λ k ne. absurd (ne (ground arith));
      alive_at = λ h a out e. ground (arith, e);
      apart = λ h h' a out out' e e'. ground (arith, e);
    };
    good = λ h out on. ground (arith, out);
    block_taken = λ j a e. ground (arith, start_free j, e);
    block_own = λ j a h e out e'. ground (arith, e');
    block_one = λ j k a e f. ground (arith, start_free j, e);
    own_empty = λ j h e z. ground (arith, e);
    placed = λ a e. ground (arith, e);
    stands =
        update_cases (λ j u. Stands (init shards role).object (init shards role).heap none none u)
          (λ j. started shards (role j)) 0 (w_top (first_of 0)) tt
          (λ j ne. started-Stands (role j));
    calls = λ j k e new c z. cc;
  }

-- Every state that `n` threads reach.
pub Reach-Inv :
    {n shards : ℕ} {role : ℕ → Role} {s : System}
    → n < 2 ^ 32
    → Reach false n shards role s
    → Inv n s
Reach-Inv {n} {shards} {role} few start = start-Inv n shards role
Reach-Inv few (later r (pick_fault i lt may faulty mv)) = ground (arith, faulty)
Reach-Inv few (later r (pick i lt may mv)) = Move-Inv few (Reach-Inv few r) i lt mv
