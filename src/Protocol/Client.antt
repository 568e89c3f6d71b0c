-- ===== src/Protocol/Client.antt =====
-- What a program over the library takes from the theorems about it.
use atomsnap.Common.{ℕ, ◌^◌, ◌<◌, ◌≡◌, ◌≢◌, refl, inr, true, false, some, arith, ℕ_discrete}
use atomsnap.Common.Family.{update}
use atomsnap.Word.Pair.{handle_null, handle_of}
use atomsnap.Protocol.Machine.{
  comparing, reclaiming, System, Reach, later, start, pick, make, exchange, idle_thread,
}
use atomsnap.Protocol.Invariant.Moves.{Reach-Inv}
use atomsnap.Protocol.Safety.{held_safe, published_accounts}

module _ {n : ℕ} {s : System} (few : n < 2 ^ 32) (r : Reach n s) where
  open (Reach-Inv few r) use {handles, made, stands}

  pub fresh_out : (i h : ℕ) → (s.thr i).fresh ≡ some h → (s.mem.avail h ≡ false) × (h < handle_null)
  fresh_out i h e = ground (arith, made i h e, handles h)

  pub out_small : (h : ℕ) → s.mem.avail h ≡ false → h < handle_null
  out_small h e = ground (arith, e, handles h)

  pub fresh_one : (i j h : ℕ) → (s.thr i).fresh ≡ some h → (s.thr j).fresh ≡ some h → i ≡ j
  fresh_one i j h e f = ground (arith, made i h e, made j h f)

  pub held_out : (i h : ℕ) → i < n → (s.thr i).held ≡ some h → s.mem.avail h ≡ false
  held_out i h lt e = (held_safe few r i h lt e).0

  pub current_out :
      (k : ℕ) → handle_of (s.mem.cb k) ≢ handle_null → s.mem.avail (handle_of (s.mem.cb k)) ≡ false
  current_out k ne = (published_accounts few r k (handle_of (s.mem.cb k)) refl ne).0

  pub reclaiming_out : (i v : ℕ) → (s.thr i).pc ≡ reclaiming v → s.mem.avail v ≡ false
  reclaiming_out i v e = ground (arith, stands i, handles v)

  pub comparing_expects : (i k e new c : ℕ) → (s.thr i).pc ≡ comparing k e new c → handle_of c ≡ e
  comparing_expects i k e new c at = ground (arith, stands i)

-- Thread 0 has made the version `h` and published it in slot 0, and no other thread has moved.
abbrev pub first_published : (h : ℕ) → System
first_published h = record {
  mem = record {
    cb = update (λ _. handle_null) 0 h;
    inner = update (λ _. 0) h 0;
    avail = update (λ _. true) h false;
  };
  thr = update (update (λ _. idle_thread) 0 (record idle_thread { fresh = some h })) 0 idle_thread;
}

pub first_published-Reach : {n : ℕ} (h : ℕ) → 0 < n → h < handle_null → Reach n (first_published h)
unfolding ℕ_discrete
first_published-Reach h lt small =
    later (later start (pick 0 lt (make h refl refl refl small)))
      (pick 0 lt (exchange 0 (some h) refl (inr refl)))

pub first_published_idle : (h j : ℕ) → (first_published h).thr j ≡ idle_thread
first_published_idle h j = ground arith
