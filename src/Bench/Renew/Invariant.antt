-- ===== src/Bench/Renew/Invariant.antt =====
-- What every reachable state of the benchmark satisfies, and the steps that leave objects alone.
use atomsnap.Common.{
  subst, ℕ, ◌+◌, ◌<◌, ◌^◌, ◌≡◌, ◌≢◌, sym, ap, ◌∙◌, Bool, true, false, Option, some, arith,
}
use atomsnap.Common.Family.{update_cases, update_both}
use atomsnap.Word.Pair.{handle_null, handle_of}
use atomsnap.Protocol.Machine as Library
use atomsnap.Protocol.Machine.{Mem, Pc, comparing, Thread}
use atomsnap.Protocol.Objects.{Same, Objects}
use atomsnap.Protocol.Objects.Calls.{quiet-Objects}
use atomsnap.Bench.Renew.Code.{
  Data, User, w_got, w_one, w_two, w_made, w_set, r_got, r_one, exited, crashed, System, narrowed,
}
use atomsnap.Bench.Renew.Machine.{after, go}

-- The version has an object with equal values.
abbrev pub Good : (object : ℕ → Option ℕ) (heap : ℕ → Data) (h : ℕ) → Type 0
Good object heap h = (a : ℕ) × (object h ≡ some a) × ((heap a).value1 ≡ (heap a).value2)

-- The thread has read the value from the version that it holds.
abbrev pub Read :
    (object : ℕ → Option ℕ) (heap : ℕ → Data) (held : Option ℕ) (value : Data → ℕ) (v : ℕ) → Type 0
Read object heap held value v =
    (o : ℕ) × (b : ℕ) × (held ≡ some o) × (object o ≡ some b) × (v ≡ value (heap b))

-- What a thread knows where it stands.
abbrev pub Stands :
    (object : ℕ → Option ℕ) (heap : ℕ → Data) (fresh held : Option ℕ) → User → Type 0
Stands object heap fresh held w_got = (o : ℕ) × (held ≡ some o)
Stands object heap fresh held (w_one v) = Read object heap held (λ d. narrowed (d.value1 + 1)) v
Stands object heap fresh held (w_two v v') = v ≡ v'
Stands object heap fresh held (w_made v v') = v ≡ v'
Stands object heap fresh held w_set = (h : ℕ) × (fresh ≡ some h) × Good object heap h
Stands object heap fresh held r_got = (o : ℕ) × (held ≡ some o)
Stands object heap fresh held (r_one v) = Read object heap held (λ d. d.value1) v
Stands object heap fresh held exited = ⊥
Stands object heap fresh held crashed = ⊥
Stands object heap fresh held _ = Unit {0}

pub record Inv (n : ℕ) (s : System) : Type 0 where
  pub shown : ℕ → Bool
  pub base : Objects n s.lib s.object s.alive shown
  pub good : (h : ℕ) → s.lib.mem.avail h ≡ false → shown h ≡ true → Good s.object s.heap h
  pub current_real : handle_of (s.lib.mem.cb 0) ≢ handle_null
  pub stands : (i : ℕ) → Stands s.object s.heap (s.lib.thr i).fresh (s.lib.thr i).held (s.user i)
  pub calls : (i k e new c : ℕ) → (s.lib.thr i).pc ≢ comparing k e new c

module _ (object object' : ℕ → Option ℕ) (heap heap' : ℕ → Data) (fresh held : Option ℕ)
    (own : Same object object' heap heap' fresh) (old : Same object object' heap heap' held) where
  kept-Read :
      (value : Data → ℕ) (v : ℕ) → Read object heap held value v → Read object' heap' held value v
  kept-Read value v (o, b, e, f, w) =
      let (f1, same) = old o b e f in (o, b, e, f1, w ∙ ap value (sym same))

  pub kept-Stands : (u : User) → Stands object heap fresh held u → Stands object' heap' fresh held u
  kept-Stands w_got st = st
  kept-Stands (w_one v) st = kept-Read (λ d. narrowed (d.value1 + 1)) v st
  kept-Stands (w_two v v') st = st
  kept-Stands (w_made v v') st = st
  kept-Stands w_set (h, e, (a, f, v)) =
      let (f1, same) = own h a e f in (h, e, (a, f1, ground (arith, same, v)))
  kept-Stands r_got st = st
  kept-Stands (r_one v) st = kept-Read (λ d. d.value1) v st
  kept-Stands exited st = st
  kept-Stands crashed st = st
  kept-Stands u st = ground arith

module _ {n : ℕ} {s : System} (few : n < 2 ^ 32) (inv : Inv n s) (i : ℕ) (lt : i < n) where
  pub known :
      (u : User) → s.user i ≡ u → Stands s.object s.heap (s.lib.thr i).fresh (s.lib.thr i).held u
  known u here =
      subst (Stands s.object s.heap (s.lib.thr i).fresh (s.lib.thr i).held) here (inv.stands i)

  -- A step of a thread in its own code.
  pub go-Inv :
      (u : User)
      → Stands s.object s.heap (s.lib.thr i).fresh (s.lib.thr i).held u
      → Inv n (go s i u)
  go-Inv u st = record {
    shown = inv.shown;
    base = inv.base;
    good = inv.good;
    current_real = inv.current_real;
    stands =
        update_cases (λ j u'. Stands s.object s.heap (s.lib.thr j).fresh (s.lib.thr j).held u')
          s.user i u st (λ j ne. inv.stands j);
    calls = inv.calls;
  }

  -- An operation of the library that neither makes, publishes nor returns a version.
  pub quiet-Inv :
      {m : Mem} {t : Thread} (mv : Library.Move s.lib.mem (s.lib.thr i) m t) (u : User)
      → m.avail ≡ s.lib.mem.avail
      → ((k : ℕ) → handle_of (m.cb k) ≡ handle_of (s.lib.mem.cb k))
      → t.fresh ≡ (s.lib.thr i).fresh
      → ((h : ℕ) → t.held ≡ some h → inv.shown h ≡ true)
      → Stands s.object s.heap t.fresh t.held u
      → ((k e new c : ℕ) → t.pc ≢ comparing k e new c)
      → Inv n (after s i mv u)
  quiet-Inv {m} {t} mv u avail same own old st ca = record {
    shown = inv.shown;
    base = quiet-Objects few inv.base i lt mv avail same own old;
    good = λ h e. inv.good h (ap (λ f. f h) (sym avail) ∙ e);
    current_real = λ e. inv.current_real (sym (same 0) ∙ e);
    stands =
        update_both (λ j t' u'. Stands s.object s.heap t'.fresh t'.held u') s.lib.thr s.user i t u
          st (λ j ne. inv.stands j);
    calls =
        update_cases (λ j t'. (k e new c : ℕ) → t'.pc ≢ comparing k e new c) s.lib.thr i t ca
          (λ j ne. inv.calls j);
  }
