-- ===== src/Bench/Snap/Invariant.antt =====
-- What every reachable state of the benchmark satisfies.
use atomsnap.Common.{ℕ, ◌+◌, ◌≤◌, ◌≡◌, ◌≢◌, ◌⊎◌, Bool, true, false, Option, none, some}
use atomsnap.Common.Family.{sum}
use atomsnap.Word.Pair.{handle_null, handle_of}
use atomsnap.Protocol.Machine.{Pc, comparing, Thread}
use atomsnap.Protocol.Objects.{Objects}
use atomsnap.Bench.Snap.Machine.{
  w_bare, Data, User, w_start, w_first, w_top, w_got, w_half, w_full, w_cas, w_again, w_done, r_top,
  r_got, r_one, r_two, r_three, r_done, joining, exited, crashed, System,
}

-- The version that the thread has made has an object.
abbrev pub Own : (object : ℕ → Option ℕ) (fresh : Option ℕ) → Type 0
Own object fresh = (h : ℕ) × (a : ℕ) × (fresh ≡ some h) × (object h ≡ some a)

abbrev pub Holds : (object : ℕ → Option ℕ) (held : Option ℕ) → Type 0
Holds object held = (o : ℕ) × (b : ℕ) × (held ≡ some o) × (object o ≡ some b)

-- The first value of the thread's object is one more than that of the version it holds; then the second
-- too.
abbrev pub Half : (object : ℕ → Option ℕ) (heap : ℕ → Data) (fresh held : Option ℕ) → Type 0
Half object heap fresh held =
    (h : ℕ) × (a : ℕ) × (o : ℕ) × (b : ℕ) × (fresh ≡ some h)
    × (object h ≡ some a)
    × (held ≡ some o)
    × (object o ≡ some b)
    × ((heap a).value1 ≡ (heap b).value1 + 1)

abbrev pub Full : (object : ℕ → Option ℕ) (heap : ℕ → Data) (fresh held : Option ℕ) → Type 0
Full object heap fresh held =
    (h : ℕ) × (a : ℕ) × (o : ℕ) × (b : ℕ) × (fresh ≡ some h)
    × (object h ≡ some a)
    × (held ≡ some o)
    × (object o ≡ some b)
    × ((heap a).value1 ≡ (heap b).value1 + 1)
    × ((heap a).value2 ≡ (heap b).value2 + 1)

-- The version that the reader holds is not older than its last one.
abbrev pub Newer : (object : ℕ → Option ℕ) (heap : ℕ → Data) (held : Option ℕ) (prev : ℕ) → Type 0
Newer object heap held prev =
    (o : ℕ) × (b : ℕ) × (held ≡ some o) × (object o ≡ some b) × (prev ≤ (heap b).value1)

abbrev pub NewerOne :
    (object : ℕ → Option ℕ) (heap : ℕ → Data) (held : Option ℕ) (prev v1 : ℕ) → Type 0
NewerOne object heap held prev v1 =
    (o : ℕ) × (b : ℕ) × (held ≡ some o)
    × (object o ≡ some b)
    × (prev ≤ (heap b).value1)
    × (v1 ≡ (heap b).value1)

-- What a thread knows where it stands; `cur` is the first value of the published version.
abbrev pub Stands :
    (object : ℕ → Option ℕ) (heap : ℕ → Data) (cur : ℕ) (fresh held : Option ℕ) → User → Type 0
Stands object heap cur fresh held w_start = Unit {0}
Stands object heap cur fresh held w_first = Unit {0}
Stands object heap cur fresh held w_top = Own object fresh
Stands object heap cur fresh held w_got = Own object fresh × Holds object held
Stands object heap cur fresh held w_half = Half object heap fresh held
Stands object heap cur fresh held w_full = Full object heap fresh held
Stands object heap cur fresh held w_cas = (fresh ≡ none) ⊎ Full object heap fresh held
Stands object heap cur fresh held w_again = Unit {0}
Stands object heap cur fresh held w_done = Own object fresh
Stands object heap cur fresh held (w_bare b) = Unit {0}
Stands object heap cur fresh held (r_top prev) = prev ≤ cur
Stands object heap cur fresh held (r_got prev) = Newer object heap held prev
Stands object heap cur fresh held (r_one prev v1) = NewerOne object heap held prev v1
Stands object heap cur fresh held (r_two prev) = Newer object heap held prev
Stands object heap cur fresh held r_three = Holds object held
Stands object heap cur fresh held (r_done prev) = prev ≤ cur
Stands object heap cur fresh held joining = Unit {0}
Stands object heap cur fresh held exited = ⊥
Stands object heap cur fresh held crashed = ⊥

-- A thread inside the compare-exchange compares what it holds and gives what it has made.
abbrev pub Calls : Thread → User → Pc → Type 0
Calls t u (comparing k e new c) = (k ≡ 0) × (u ≡ w_cas) × (t.held ≡ some e) × (t.fresh ≡ some new)
Calls t u _ = Unit {0}

-- A version that was published has an object with equal values, not above those of the version that is.
abbrev pub Good : (ℕ → Option ℕ) → (ℕ → Data) → (cur h : ℕ) → Type 0
Good object heap cur h =
    (a : ℕ) × (object h ≡ some a) × ((heap a).value1 ≡ (heap a).value2) × ((heap a).value1 ≤ cur)

-- A version that the thread has published and not counted.
abbrev pub uncounted : User → (fresh : Option ℕ) → ℕ
uncounted w_cas none = 1
uncounted _ _ = 0

-- The versions that thread `j` has published.
abbrev pub writes : System → ℕ → ℕ
writes s j = s.ops j + uncounted (s.user j) (s.lib.thr j).fresh

pub record Inv (n : ℕ) (s : System) : Type 0 where
  pub shown : ℕ → Bool
  pub cur : ℕ
  pub base : Objects n s.lib s.object s.alive shown
  pub current_real : handle_of (s.lib.mem.cb 0) ≢ handle_null
  pub current_value :
      (a : ℕ) → s.object (handle_of (s.lib.mem.cb 0)) ≡ some a → (s.heap a).value1 ≡ cur
  pub total_writes : cur ≡ sum n (writes s)
  pub good : (h : ℕ) → s.lib.mem.avail h ≡ false → shown h ≡ true → Good s.object s.heap cur h
  pub stands :
      (i : ℕ) → Stands s.object s.heap cur (s.lib.thr i).fresh (s.lib.thr i).held (s.user i)
  pub calls : (i : ℕ) → Calls (s.lib.thr i) (s.user i) (s.lib.thr i).pc
