-- ===== src/Protocol/Objects/Calls.antt =====
-- A call that leaves the versions and the gates, and the callback, keep the objects of versions.
use atomsnap.Common.{ℕ, ◌<◌, ◌^◌, ◌≡◌, ◌≢◌, sym, ap, ◌∙◌, Bool, true, false, Option, some, arith}
use atomsnap.Common.Family.{update, update_cases}
use atomsnap.Word.Pair.{handle_of}
use atomsnap.Protocol.Machine.{Mem, Pc, reclaiming, Thread, Move, System, later, pick, reclaim}
use atomsnap.Protocol.Client.{reclaiming_out}
use atomsnap.Protocol.Objects.{moved, dropped, dropped_other, Objects}

module _ {n : ℕ} {lib : System} {object : ℕ → Option ℕ} {alive shown : ℕ → Bool} (few : n < 2 ^ 32)
    (inv : Objects n lib object alive shown) (i : ℕ) (lt : i < n) where
  -- A step of the library that leaves the versions and the gates.
  pub quiet-Objects :
      {m : Mem} {t : Thread} (mv : Move lib.mem (lib.thr i) m t)
      → m.avail ≡ lib.mem.avail
      → ((k : ℕ) → handle_of (m.cb k) ≡ handle_of (lib.mem.cb k))
      → t.fresh ≡ (lib.thr i).fresh
      → ((h : ℕ) → t.held ≡ some h → shown h ≡ true)
      → Objects n (moved lib i mv) object alive shown
  quiet-Objects {m} {t} mv avail same own old = record {
    reach = later inv.reach (pick i lt mv);
    fresh_hidden =
        update_cases (λ j t'. (h : ℕ) → t'.fresh ≡ some h → shown h ≡ false) lib.thr i t
          (λ h e. inv.fresh_hidden i h (sym own ∙ e)) (λ j ne. inv.fresh_hidden j);
    held_shown =
        update_cases (λ j t'. (h : ℕ) → t'.held ≡ some h → shown h ≡ true) lib.thr i t old
          (λ j ne. inv.held_shown j);
    held_inside =
        update_cases (λ j t'. (h : ℕ) → t'.held ≡ some h → j < n) lib.thr i t (λ h e. lt)
          (λ j ne. inv.held_inside j);
    gate_shown = λ k ne. ap shown (same k) ∙ inv.gate_shown k (λ e. ne (same k ∙ e));
    alive_at = λ h a e. inv.alive_at h a (ap (λ f. f h) (sym avail) ∙ e);
    apart = λ h h' a e e'.
        inv.apart h h' a (ap (λ f. f h) (sym avail) ∙ e) (ap (λ f. f h') (sym avail) ∙ e');
  }

  -- The callback drops the object of the version, and no other version's.
  pub callback-Objects :
      (v : ℕ) (at : (lib.thr i).pc ≡ reclaiming v)
      → Objects n (moved lib i (reclaim v at)) object (dropped alive (object v)) shown
  callback-Objects v at =
      let out = reclaiming_out few inv.reach i v at in
      let t' : Thread = record (lib.thr i) { pc = Pc.ready } in
      let still : (h : ℕ)
          → update lib.mem.avail v true h ≡ false
          → (v ≢ h) × (lib.mem.avail h ≡ false) =
        λ h e. ground (arith, e) in
      record {
        reach = later inv.reach (pick i lt (reclaim v at));
        fresh_hidden =
            update_cases (λ j t. (h : ℕ) → t.fresh ≡ some h → shown h ≡ false) lib.thr i t'
              (inv.fresh_hidden i) (λ j ne. inv.fresh_hidden j);
        held_shown =
            update_cases (λ j t. (h : ℕ) → t.held ≡ some h → shown h ≡ true) lib.thr i t'
              (inv.held_shown i) (λ j ne. inv.held_shown j);
        held_inside =
            update_cases (λ j t. (h : ℕ) → t.held ≡ some h → j < n) lib.thr i t' (λ h z. lt)
              (λ j ne. inv.held_inside j);
        gate_shown = inv.gate_shown;
        alive_at = λ h a e z.
            dropped_other alive (object v) a (inv.alive_at h a (still h e).1 z)
              (λ z'. (still h e).0 (inv.apart v h a out (still h e).1 z' z));
        apart = λ h h' a e e'. inv.apart h h' a (still h e).1 (still h' e').1;
      }
