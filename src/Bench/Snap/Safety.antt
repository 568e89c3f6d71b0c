-- ===== src/Bench/Snap/Safety.antt =====
-- What the benchmark never does, and what its readers see.
use atomsnap.Common.{
  false, ℕ, ◌+◌, ◌∙◌, refl, ◌<◌, ◌^◌, ◌≡◌, ◌≢◌, sym, subst, Bool, true, Option, some, arith,
}
use atomsnap.Common.Family.{sum, sum-same}
use atomsnap.Word.Pair.{handle_null, handle_of}
use atomsnap.Bench.Snap.Machine.{User, w_cas, exited, crashed, System, Reach}
use atomsnap.Bench.Snap.Invariant.{Stands, uncounted, writes}
use atomsnap.Protocol.Client.{current_out}
use atomsnap.Bench.Snap.Calls.{current-Good}
use atomsnap.Bench.Snap.Steps.{Reach-Inv}

all_counted : (u : User) (fresh : Option ℕ) (ops : ℕ) → u ≢ w_cas → ops + uncounted u fresh ≡ ops
all_counted w_cas fresh ops ne = absurd (ne refl)
all_counted u fresh ops ne = omega arith

-- As long as no call of `atomsnap_make_version` returns NULL: with at least one and fewer than 2^32
-- threads, in every state that they reach from the end of `main`'s set-up, no thread has called
-- `exit(1)`, and none has loaded or stored through NULL or through a pointer to deleted memory, or
-- deleted an object twice.
pub never_fails :
    {n : ℕ} (is_writer : ℕ → Bool) (h a : ℕ) {s : System}
    → 0 < n
    → n < 2 ^ 32
    → h < handle_null
    → Reach false n is_writer h a s
    → (i : ℕ) → (s.user i ≢ exited) × (s.user i ≢ crashed)
never_fails is_writer h a {s} lt few small r i =
    let inv = Reach-Inv is_writer h a lt small few r in
    let at : (u : User)
        → s.user i ≡ u
        → Stands s.object s.heap inv.cur (s.lib.thr i).fresh (s.lib.thr i).held u =
      λ u e.
        subst (Stands s.object s.heap inv.cur (s.lib.thr i).fresh (s.lib.thr i).held) e
          (inv.stands i) in
    (at exited, at crashed)

-- As long as no call of `atomsnap_make_version` returns NULL: with at least one and fewer than 2^32
-- threads, in every reachable state in which no thread is in its `atomsnap_compare_exchange_version`
-- or between that and its `ops++`, the published version has an object that is not deleted and both of
-- whose values are the sum of the `ops` of all writers.
pub no_lost_update :
    {n : ℕ} (is_writer : ℕ → Bool) (h a : ℕ) {s : System}
    → 0 < n
    → n < 2 ^ 32
    → h < handle_null
    → Reach false n is_writer h a s
    → ((i : ℕ) → i < n → s.user i ≢ w_cas)
    → (c : ℕ) × (s.object (handle_of (s.lib.mem.cb 0)) ≡ some c)
      × (s.alive c ≡ true)
      × ((s.heap c).value1 ≡ sum n s.ops)
      × ((s.heap c).value2 ≡ sum n s.ops)
no_lost_update {n} is_writer h a {s} lt few small r outside =
    let inv = Reach-Inv is_writer h a lt small few r in
    let (c, g, eq, le) = current-Good few inv 0 lt in
    let settled : sum n (writes s) ≡ sum n s.ops =
      sum-same n (writes s) s.ops
        (λ j inside. all_counted (s.user j) (s.lib.thr j).fresh (s.ops j) (outside j inside)) in
    let first : (s.heap c).value1 ≡ sum n s.ops =
      inv.current_value c g ∙ inv.total_writes ∙ settled in
    (
      c,
      g,
      inv.base.alive_at _ c (current_out few inv.base.reach 0 inv.current_real) g,
      first,
      sym eq ∙ first,
    )
