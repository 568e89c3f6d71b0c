-- ===== src/Protocol/Objects/Versions.antt =====
-- A version is made, gets its object, and is published: the objects of versions are kept.
use atomsnap.Common.{
  ℕ, ◌<◌, ◌^◌, ◌≡◌, ◌≢◌, ◌⊎◌, inl, inr, sym, ap, ◌∙◌, Bool, true, false, Option, none, some, arith,
}
use atomsnap.Common.Family.{update, update_cases}
use atomsnap.Word.Pair.{handle_null, handle_of}
use atomsnap.Protocol.Machine.{Mem, Pc, Thread, Move, System, later, pick, make}
use atomsnap.Protocol.Client.{current_out}
use atomsnap.Protocol.Objects.{moved, Objects, make-ne-out, shown_out, made-ne-made}

module _ {n : ℕ} {lib : System} {object : ℕ → Option ℕ} {alive shown : ℕ → Bool} (few : n < 2 ^ 32)
    (inv : Objects n lib object alive shown) (i : ℕ) (lt : i < n) where
  pub make-Objects :
      (h : ℕ) (at : (lib.thr i).pc ≡ Pc.ready) (none_made : (lib.thr i).fresh ≡ none)
      (is_free : lib.mem.avail h ≡ true) (small : h < handle_null)
      → Objects n
          (moved lib i (make h at none_made is_free small))
          (update object h none)
          alive
          (update shown h false)
  make-Objects h at none_made is_free small =
      let t' : Thread = record (lib.thr i) { fresh = some h } in
      record {
        reach = later inv.reach (pick i lt (make h at none_made is_free small));
        fresh_hidden =
            update_cases (λ j t. (h' : ℕ) → t.fresh ≡ some h' → update shown h false h' ≡ false)
              lib.thr i t' (λ h' z. ground (arith, z))
              (λ j ne h' z. ground (arith, inv.fresh_hidden j h' z));
        held_shown =
            update_cases (λ j t. (h' : ℕ) → t.held ≡ some h' → update shown h false h' ≡ true)
              lib.thr i t'
              (λ h' z. ground (
                arith,
                inv.held_shown i h' z,
                make-ne-out lib.mem h h' is_free (shown_out few inv i h' z),
              ))
              (λ j ne h' z. ground (
                arith,
                inv.held_shown j h' z,
                make-ne-out lib.mem h h' is_free (shown_out few inv j h' z),
              ));
        held_inside =
            update_cases (λ j t. (h' : ℕ) → t.held ≡ some h' → j < n) lib.thr i t' (λ h' z. lt)
              (λ j ne. inv.held_inside j);
        gate_shown = λ k ne. ground (
          arith,
          inv.gate_shown k ne,
          make-ne-out lib.mem h (handle_of (lib.mem.cb k)) is_free (current_out few inv.reach k ne),
        );
        alive_at = λ h' a out z. ground (arith, inv.alive_at h' a, out, z);
        apart = λ h1 h2 a out out' z z'. ground (arith, inv.apart h1 h2 a, out, out', z, z');
      }

  -- A version that the thread has made is published.
  pub publish-Objects :
      {m : Mem} {t : Thread} (mv : Move lib.mem (lib.thr i) m t) (h : ℕ)
      → (lib.thr i).fresh ≡ some h
      → m.avail ≡ lib.mem.avail
      → t.fresh ≡ none
      → t.held ≡ (lib.thr i).held
      → ((k : ℕ) → (handle_of (m.cb k) ≡ h) ⊎ (handle_of (m.cb k) ≡ handle_of (lib.mem.cb k)))
      → Objects n (moved lib i mv) object alive (update shown h true)
  publish-Objects {m} {t} mv h made_h avail spent held gates = record {
    reach = later inv.reach (pick i lt mv);
    fresh_hidden =
        update_cases (λ j t'. (h' : ℕ) → t'.fresh ≡ some h' → update shown h true h' ≡ false)
          lib.thr i t (λ h' z. ground (arith, z, spent))
          (λ j ne h' z.
            ground (arith, inv.fresh_hidden j h' z, made-ne-made few inv i j h h' ne made_h z));
    held_shown =
        update_cases (λ j t'. (h' : ℕ) → t'.held ≡ some h' → update shown h true h' ≡ true) lib.thr
          i t (λ h' z. ground (arith, inv.held_shown i h' (sym held ∙ z)))
          (λ j ne h' z. ground (arith, inv.held_shown j h' z));
    held_inside =
        update_cases (λ j t'. (h' : ℕ) → t'.held ≡ some h' → j < n) lib.thr i t (λ h' z. lt)
          (λ j ne. inv.held_inside j);
    gate_shown = λ k ne. elim (gates k) [
      | inl e ↦ ground (arith, e)
      | inr e ↦ ground (arith, e, ap shown e, inv.gate_shown k (λ z. ne (e ∙ z)))
    ];
    alive_at = λ h' a e. inv.alive_at h' a (ap (λ f. f h') (sym avail) ∙ e);
    apart = λ h1 h2 a e e'.
        inv.apart h1 h2 a (ap (λ f. f h1) (sym avail) ∙ e) (ap (λ f. f h2) (sym avail) ∙ e');
  }

  -- A version that the thread has made gets an object that no version has.
  pub set-Objects :
      (h a : ℕ) (alive' : ℕ → Bool)
      → (lib.thr i).fresh ≡ some h
      → ((h' : ℕ) → lib.mem.avail h' ≡ false → object h' ≢ some a)
      → alive' a ≡ true
      → ((b : ℕ) → alive b ≡ true → alive' b ≡ true)
      → Objects n lib (update object h (some a)) alive' shown
  set-Objects h a alive' made_h alone live more = record {
    reach = inv.reach;
    fresh_hidden = inv.fresh_hidden;
    held_shown = inv.held_shown;
    held_inside = inv.held_inside;
    gate_shown = inv.gate_shown;
    alive_at = λ h' b out z. ground (arith, live, more b, inv.alive_at h' b out, z);
    apart = λ h1 h2 b out out' z z'.
        ground (arith, inv.apart h1 h2 b out out', alone h1 out, alone h2 out', z, z');
  }

  -- More objects are there.
  pub grow-Objects :
      (alive' : ℕ → Bool)
      → ((b : ℕ) → alive b ≡ true → alive' b ≡ true)
      → Objects n lib object alive' shown
  grow-Objects alive' more = record {
    reach = inv.reach;
    fresh_hidden = inv.fresh_hidden;
    held_shown = inv.held_shown;
    held_inside = inv.held_inside;
    gate_shown = inv.gate_shown;
    alive_at = λ h a out z. more a (inv.alive_at h a out z);
    apart = inv.apart;
  }
