-- ===== src/Load/Snap/Invariant.antt =====
-- What every reachable state of the backend satisfies, and the steps that leave its objects alone.
use atomsnap.Common.{
  ◌^◌, subst, ℕ, ◌<◌, ◌≡◌, ◌≢◌, ◌⊎◌, inl, inr, refl, sym, ap, ◌∙◌, Bool, true, false, Option, none,
  some, arith,
}
use atomsnap.Common.Family.{update, update_cases, update_both}
use atomsnap.Word.Pair.{handle_of}
use atomsnap.Protocol.Machine.{Mem, comparing, Thread, Move}
use atomsnap.Protocol.Objects.{Same, Objects}
use atomsnap.Protocol.Objects.Calls.{quiet-Objects}
use atomsnap.Load.Snap.Code.{
  AtomObj, User, w_made, w_got, w_half, w_full, w_set, r_one, aborted, crashed, System, value_of,
  after, go,
}

-- The version has an object with equal values.
abbrev pub Good : (object : ℕ → Option ℕ) (heap : ℕ → AtomObj) (h : ℕ) → Type 0
Good object heap h = (a : ℕ) × (object h ≡ some a) × ((heap a).v1 ≡ (heap a).v2)

-- What a thread knows where it stands.
abbrev pub Stands :
    (object : ℕ → Option ℕ) (heap : ℕ → AtomObj) (fresh held : Option ℕ) → User → Type 0
Stands object heap fresh held (w_half r a) = (heap a).v1 ≡ value_of r
Stands object heap fresh held (w_full r a) = (heap a).v1 ≡ (heap a).v2
Stands object heap fresh held (w_set r) = (h : ℕ) × (fresh ≡ some h) × Good object heap h
Stands object heap fresh held (r_one shard v1) =
    (o : ℕ) × (b : ℕ) × (held ≡ some o) × (object o ≡ some b) × (v1 ≡ (heap b).v1)
Stands object heap fresh held aborted = ⊥
Stands object heap fresh held crashed = ⊥
Stands object heap fresh held _ = Unit {0}

-- The block that the thread has not yet given to a version.
abbrev pub block_of : User → Option ℕ
block_of (w_got r a) = some a
block_of (w_half r a) = some a
block_of (w_full r a) = some a
block_of _ = none

-- The version that the thread has made has no object.
abbrev pub unset : User → Bool
unset (w_made r) = true
unset (w_got r a) = true
unset (w_half r a) = true
unset (w_full r a) = true
unset _ = false

-- A taken block is a thread's own or the object of a version.
abbrev pub Placed : System → (a : ℕ) → Type 0
Placed s a =
    ((i : ℕ) × (block_of (s.user i) ≡ some a))
    ⊎ ((h : ℕ) × (s.lib.mem.avail h ≡ false) × (s.object h ≡ some a))

pub record Inv (n : ℕ) (s : System) : Type 0 where
  pub shown : ℕ → Bool
  pub base : Objects n s.lib s.object s.taken shown
  pub good : (h : ℕ) → s.lib.mem.avail h ≡ false → shown h ≡ true → Good s.object s.heap h
  pub block_taken : (i a : ℕ) → block_of (s.user i) ≡ some a → s.taken a ≡ true
  pub block_own :
      (i a h : ℕ) → block_of (s.user i) ≡ some a → s.lib.mem.avail h ≡ false → s.object h ≢ some a
  pub block_one : (i j a : ℕ) → block_of (s.user i) ≡ some a → block_of (s.user j) ≡ some a → i ≡ j
  pub own_empty :
      (i h : ℕ) → (s.lib.thr i).fresh ≡ some h → unset (s.user i) ≡ true → s.object h ≡ none
  pub placed : (a : ℕ) → s.taken a ≡ true → Placed s a
  pub stands : (i : ℕ) → Stands s.object s.heap (s.lib.thr i).fresh (s.lib.thr i).held (s.user i)
  -- no thread is in a compare-exchange
  pub calls : (i k e new c : ℕ) → (s.lib.thr i).pc ≢ comparing k e new c

pub kept-Stands :
    (object object' : ℕ → Option ℕ) (heap heap' : ℕ → AtomObj) (fresh held : Option ℕ) (u : User)
    → Same object object' heap heap' fresh
    → Same object object' heap heap' held
    → ((a : ℕ) → block_of u ≡ some a → heap' a ≡ heap a)
    → Stands object heap fresh held u
    → Stands object' heap' fresh held u
kept-Stands object object' heap heap' fresh held (w_half r a) own old block st =
    ground (arith, block a refl, st)
kept-Stands object object' heap heap' fresh held (w_full r a) own old block st =
    ground (arith, block a refl, st)
kept-Stands object object' heap heap' fresh held (w_set r) own old block (h, e, (a, f, v)) =
    let (f1, same) = own h a e f in (h, e, (a, f1, ground (arith, same, v)))
kept-Stands object object' heap heap' fresh held (r_one shard v1) own old block (o, b, e, f, v) =
    let (f1, same) = old o b e f in (o, b, e, f1, ground (arith, same, v))
kept-Stands object object' heap heap' fresh held aborted own old block st = st
kept-Stands object object' heap heap' fresh held crashed own old block st = st
kept-Stands object object' heap heap' fresh held u own old block st = ground arith

module _ {n : ℕ} {s : System} (few : n < 2 ^ 32) (inv : Inv n s) (i : ℕ) (lt : i < n) where
  pub known :
      (u : User) → s.user i ≡ u → Stands s.object s.heap (s.lib.thr i).fresh (s.lib.thr i).held u
  known u here =
      subst (Stands s.object s.heap (s.lib.thr i).fresh (s.lib.thr i).held) here (inv.stands i)

  -- A step of a thread in its own code.
  pub go-Inv :
      (u : User)
      → Stands s.object s.heap (s.lib.thr i).fresh (s.lib.thr i).held u
      → block_of u ≡ none
      → unset u ≡ false
      → block_of (s.user i) ≡ none
      → Inv n (go s i u)
  go-Inv u st no_block no_version had_none = record {
    shown = inv.shown;
    base = inv.base;
    good = inv.good;
    block_taken =
        update_cases (λ j u'. (a : ℕ) → block_of u' ≡ some a → s.taken a ≡ true) s.user i u
          (λ a e. ground (arith, e, no_block)) (λ j ne. inv.block_taken j);
    block_own =
        update_cases
          (λ j u'.
            (a h : ℕ) → block_of u' ≡ some a → s.lib.mem.avail h ≡ false → s.object h ≢ some a)
          s.user i u (λ a h e. ground (arith, e, no_block)) (λ j ne. inv.block_own j);
    block_one = λ j k a e f. inv.block_one j k a (stays j a e) (stays k a f);
    own_empty =
        update_cases
          (λ j u'. (h : ℕ) → (s.lib.thr j).fresh ≡ some h → unset u' ≡ true → s.object h ≡ none)
          s.user i u (λ h e z. ground (arith, z, no_version)) (λ j ne. inv.own_empty j);
    placed = λ a e. elim (inv.placed a e) [
      | inl (j, z) ↦ inl (j, ground (arith, z, had_none))
      | inr there ↦ inr there
    ];
    stands =
        update_cases (λ j u'. Stands s.object s.heap (s.lib.thr j).fresh (s.lib.thr j).held u')
          s.user i u st (λ j ne. inv.stands j);
    calls = inv.calls;
  }
    where
      stays : (j a : ℕ) → block_of (update s.user i u j) ≡ some a → block_of (s.user j) ≡ some a
      stays j a =
          update_cases (λ j u'. block_of u' ≡ some a → block_of (s.user j) ≡ some a) s.user i u
            (λ e. ground (arith, e, no_block)) (λ j ne e. e) j

  -- An operation of the library that neither makes, publishes nor returns a version, by a thread without a
  -- block or whose place stays.
  pub quiet-Inv :
      {m : Mem} {t : Thread} (mv : Move s.lib.mem (s.lib.thr i) m t) (u : User)
      → m.avail ≡ s.lib.mem.avail
      → ((k : ℕ) → handle_of (m.cb k) ≡ handle_of (s.lib.mem.cb k))
      → t.fresh ≡ (s.lib.thr i).fresh
      → ((h : ℕ) → t.held ≡ some h → inv.shown h ≡ true)
      → Stands s.object s.heap t.fresh t.held u
      → block_of u ≡ block_of (s.user i)
      → unset u ≡ unset (s.user i)
      → ((k e new c : ℕ) → t.pc ≢ comparing k e new c)
      → Inv n (after s i mv u)
  quiet-Inv {m} {t} mv u avail same own old st block version ca = record {
    shown = inv.shown;
    base = quiet-Objects few inv.base i lt mv avail same own old;
    good = λ h e. inv.good h (ap (λ f. f h) (sym avail) ∙ e);
    block_taken = λ j a e. inv.block_taken j a (stays j a e);
    block_own = λ j a h e out. inv.block_own j a h (stays j a e) (ap (λ f. f h) (sym avail) ∙ out);
    block_one = λ j k a e f. inv.block_one j k a (stays j a e) (stays k a f);
    own_empty =
        update_both (λ j t' u'. (h : ℕ) → t'.fresh ≡ some h → unset u' ≡ true → s.object h ≡ none)
          s.lib.thr s.user i t u (λ h e z. inv.own_empty i h (sym own ∙ e) (sym version ∙ z))
          (λ j ne. inv.own_empty j);
    placed = λ a e. elim (inv.placed a e) [
      | inl (j, z) ↦ inl (j, same_block j ∙ z)
      | inr (h, out, z) ↦ inr (h, ap (λ f. f h) avail ∙ out, z)
    ];
    stands =
        update_both (λ j t' u'. Stands s.object s.heap t'.fresh t'.held u') s.lib.thr s.user i t u
          st (λ j ne. inv.stands j);
    calls =
        update_cases (λ j t'. (k e new c : ℕ) → t'.pc ≢ comparing k e new c) s.lib.thr i t ca
          (λ j ne. inv.calls j);
  }
    where
      same_block : (j : ℕ) → block_of (update s.user i u j) ≡ block_of (s.user j)
      same_block j =
          update_cases (λ j u'. block_of u' ≡ block_of (s.user j)) s.user i u block (λ j ne. refl) j

      stays : (j a : ℕ) → block_of (update s.user i u j) ≡ some a → block_of (s.user j) ≡ some a
      stays j a e = sym (same_block j) ∙ e
