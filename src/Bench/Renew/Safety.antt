-- ===== src/Bench/Renew/Safety.antt =====
-- Every step keeps the invariant, and what this means for the readers.
use atomsnap.Common.{
  false, ℕ, ◌+◌, ◌<◌, ◌^◌, ◌≡◌, ◌≢◌, ◌⊎◌, inl, inr, refl, sym, ap, ◌∙◌, subst, Bool, true, false,
  none, some, arith,
}
use atomsnap.Common.Family.{update}
use atomsnap.Word.Pair.{handle_null}
use atomsnap.Protocol.Machine.{Thread}
use atomsnap.Protocol.Client.{first_published-Reach, first_published_idle}
use atomsnap.Protocol.Objects.{shown_out}
use atomsnap.Bench.Renew.Code.{
  User, w_top, w_got, w_one, w_two, r_top, r_got, r_one, r_done, joining, exited, crashed, System,
  narrowed, readable, object_of, value_one, value_two, read_one, read_two,
}
use atomsnap.Bench.Renew.Machine.{
  go, Move, inside, callback, acquire_version, get_value1, get_value2, make_version, set_object,
  exchange_version, release_version, read_value1, read_value2, pick, pick_null, init, Reach, start,
  later,
}
use atomsnap.Bench.Renew.Invariant.{known, Stands, Inv, go-Inv}
use atomsnap.Bench.Renew.Calls.{acquire-Inv, release-Inv, inside-Inv, callback-Inv}
use atomsnap.Bench.Renew.Versions.{make-Inv, exchange-Inv, set-Inv}

module _ {n : ℕ} {s : System} (few : n < 2 ^ 32) (inv : Inv n s) (i : ℕ) (lt : i < n) where
  -- The object of the version that the thread holds can be read, and has equal values.
  held_object :
      (o : ℕ)
      → (s.lib.thr i).held ≡ some o
      → (b : ℕ) × (s.object o ≡ some b)
        × (object_of s (s.lib.thr i).held ≡ some b)
        × ((s.heap b).value1 ≡ (s.heap b).value2)
  held_object o e =
      let out = shown_out few inv.base i o e in
      let (b, f, eq) = inv.good o out (inv.base.held_shown i o e) in
      (
        b,
        f,
        subst (λ v. object_of s v ≡ some b) (sym e)
            (ap (readable s.alive) f ∙ rw (inv.base.alive_at o b out f) refl),
        eq,
      )

  get_value1-Inv :
      s.user i ≡ w_got → Inv n (go s i (value_one s.heap (object_of s (s.lib.thr i).held)))
  get_value1-Inv here =
      let (o, e) = known few inv i lt w_got here in
      let (b, f, got, eq) = held_object o e in
      subst (λ x. Inv n (go s i (value_one s.heap x))) (sym got)
        (go-Inv few inv i lt (w_one (narrowed ((s.heap b).value1 + 1))) (o, b, e, f, refl))

  get_value2-Inv :
      (v : ℕ)
      → s.user i ≡ w_one v
      → Inv n (go s i (value_two s.heap v (object_of s (s.lib.thr i).held)))
  get_value2-Inv v here =
      let (o, b, e, f, w) = known few inv i lt (w_one v) here in
      let (b', f', got, eq) = held_object o e in
      let one : b' ≡ b = ground (arith, f, f') in
      let same : v ≡ narrowed ((s.heap b').value2 + 1) =
        w
        ∙ ap (λ (x : ℕ). narrowed ((s.heap x).value1 + 1)) (sym one)
        ∙ ap (λ (x : ℕ). narrowed (x + 1)) eq in
      subst (λ x. Inv n (go s i (value_two s.heap v x))) (sym got)
        (go-Inv few inv i lt (w_two v (narrowed ((s.heap b').value2 + 1))) same)

  read_value1-Inv :
      s.user i ≡ r_got → Inv n (go s i (read_one s.heap (object_of s (s.lib.thr i).held)))
  read_value1-Inv here =
      let (o, e) = known few inv i lt r_got here in
      let (b, f, got, eq) = held_object o e in
      subst (λ x. Inv n (go s i (read_one s.heap x))) (sym got)
        (go-Inv few inv i lt (r_one (s.heap b).value1) (o, b, e, f, refl))

  read_value2-Inv :
      (v : ℕ)
      → s.user i ≡ r_one v
      → Inv n (go s i (read_two s.heap v (object_of s (s.lib.thr i).held)))
  read_value2-Inv v here =
      let (o, b, e, f, w) = known few inv i lt (r_one v) here in
      let (b', f', got, eq) = held_object o e in
      let one : b' ≡ b = ground (arith, f, f') in
      let same : read_two s.heap v (some b') ≡ r_done =
        ground (arith, w ∙ ap (λ (x : ℕ). (s.heap x).value1) (sym one) ∙ eq) in
      subst (λ x. Inv n (go s i (read_two s.heap v x))) (sym got)
        (subst (λ u. Inv n (go s i u)) (sym same) (go-Inv few inv i lt r_done tt))

  Move-Inv : {t : System} → Move i s t → Inv n t
  Move-Inv (inside mv busy going) = inside-Inv few inv i lt mv busy going
  Move-Inv (callback v at) = callback-Inv few inv i lt v at
  Move-Inv (acquire_version u at none_held went) = acquire-Inv few inv i lt u at none_held went
  Move-Inv (get_value1 at here) = get_value1-Inv here
  Move-Inv (get_value2 v at here) = get_value2-Inv v here
  Move-Inv (make_version v v' h at none_made is_free small here) =
      make-Inv few inv i lt v v' h at none_made is_free small here
  Move-Inv (set_object v v' h a at made_h dead here) =
      set-Inv few inv i lt v v' h a made_h dead here
  Move-Inv (exchange_version h at made_h here) = exchange-Inv few inv i lt h at made_h here
  Move-Inv (release_version h u at held_h went) = release-Inv few inv i lt h u at held_h went
  Move-Inv (read_value1 at here) = read_value1-Inv here
  Move-Inv (read_value2 v at here) = read_value2-Inv v here

module _ {n : ℕ} (is_writer : ℕ → Bool) (h a : ℕ) (lt : 0 < n) (small : h < handle_null) where
  abbrev first : System
  first = init is_writer h a

  start_Stands : (j : ℕ) → Stands first.object first.heap none none (first.user j)
  start_Stands j =
      let parts : (first.user j ≡ joining) ⊎ ((first.user j ≡ w_top) ⊎ (first.user j ≡ r_top)) =
        ground arith in
      elim parts [ inl e ↦ rw e tt | inr (inl e) ↦ rw e tt | inr (inr e) ↦ rw e tt ]

  start-Inv : Inv n first
  start-Inv = record {
    shown = update (λ _. false) h true;
    base = record {
      reach = first_published-Reach h lt small;
      fresh_hidden = λ j h' e. ground (arith, first_published_idle h j, e);
      held_shown = λ j h' e. ground (arith, first_published_idle h j, e);
      held_inside = λ j h' e. ground (arith, first_published_idle h j, e);
      gate_shown = λ k ne. ground (arith, small, ne);
      alive_at = λ h' b out e. ground (arith, e);
      apart = λ h1 h2 b out out' e e'. ground (arith, e, e');
    };
    good = λ h' out on. (a, ground (arith, on), refl);
    current_real = λ e. ground (arith, small, e);
    stands = λ j.
        subst (λ (t : Thread). Stands first.object first.heap t.fresh t.held (first.user j))
          (sym (first_published_idle h j)) (start_Stands j);
    calls = λ j k e new c z. ground (arith, first_published_idle h j, z);
  }

  pub Reach-Inv : {s : System} → n < 2 ^ 32 → Reach false n is_writer h a s → Inv n s
  Reach-Inv few start = start-Inv
  Reach-Inv few (later r (pick_null i inside_n refused mv)) = ground (arith, refused)
  Reach-Inv few (later r (pick i inside_n mv)) = Move-Inv few (Reach-Inv few r) i inside_n mv

-- As long as no call of `atomsnap_make_version` returns NULL: with at least one and fewer than 2^32
-- threads, in every state that they reach from the end of `main`'s set-up, no reader has called
-- `exit(1)` on two values that differ, and no thread has loaded through NULL or a pointer to deleted
-- memory, or deleted an object twice.
pub values_agree :
    {n : ℕ} (is_writer : ℕ → Bool) (h a : ℕ) {s : System}
    → 0 < n
    → n < 2 ^ 32
    → h < handle_null
    → Reach false n is_writer h a s
    → (i : ℕ) → (s.user i ≢ exited) × (s.user i ≢ crashed)
values_agree is_writer h a {s} lt few small r i =
    let inv = Reach-Inv is_writer h a lt small few r in
    let at : (u : User)
        → s.user i ≡ u
        → Stands s.object s.heap (s.lib.thr i).fresh (s.lib.thr i).held u =
      λ u e.
        subst (Stands s.object s.heap (s.lib.thr i).fresh (s.lib.thr i).held) e (inv.stands i) in
    (at exited, at crashed)
