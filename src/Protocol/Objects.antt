-- ===== src/Protocol/Objects.antt =====
-- Programs over the library that give each version an object: what all of them keep about versions and
-- objects, by the operations of the library.
pub mod Calls
pub mod Versions
use atomsnap.Common.{
  ℕ, ◌<◌, ◌^◌, ◌≡◌, ◌≢◌, ◌⊎◌, inl, inr, refl, sym, ap, ◌∙◌, Bool, true, false, Option, none, some,
  arith,
}
use atomsnap.Common.Family.{update, update_cases}
use atomsnap.Word.Pair.{handle_null, handle_of}
use atomsnap.Protocol.Machine.{
  Mem, Pc, comparing, reclaiming, Thread, Move, System, Reach, later, pick, make, discard, acquire,
  release, exchange, compare, cas_win, cas_lose, load_inner, adjust_win, adjust_lose, check, claim,
  reclaim,
}
use atomsnap.Protocol.Client.{fresh_out, fresh_one, held_out, current_out, reclaiming_out}

-- The state of the library after a thread's operation.
abbrev pub moved :
    (lib : System) (i : ℕ) {m : Mem} {t : Thread} → Move lib.mem (lib.thr i) m t → System
moved lib i {m} {t} mv = record { mem = m; thr = update lib.thr i t }

-- The object of a version after the version was reclaimed: `free_impl` gives it back.
abbrev pub dropped : (alive : ℕ → Bool) → (obj : Option ℕ) → ℕ → Bool
dropped alive none = alive
dropped alive (some a) = update alive a false

pub dropped_other :
    (alive : ℕ → Bool) (o : Option ℕ) (a : ℕ)
    → alive a ≡ true
    → o ≢ some a
    → dropped alive o a ≡ true
dropped_other alive none a live ne = live
dropped_other alive (some b) a live ne = ground (arith, live, ne)

pub dropped_was :
    (alive : ℕ → Bool) (o : Option ℕ) (a : ℕ)
    → dropped alive o a ≡ true
    → (alive a ≡ true) × (o ≢ some a)
dropped_was alive none a e = (e, λ z. cc)
dropped_was alive (some b) a e = (ground (arith, e), λ z. ground (arith, e, z))

-- `shown` are the versions that were published since they were made.
pub record Objects (n : ℕ) (lib : System) (object : ℕ → Option ℕ) (alive shown : ℕ → Bool)
    : Type 0 where
  pub reach : Reach n lib
  pub fresh_hidden : (i h : ℕ) → (lib.thr i).fresh ≡ some h → shown h ≡ false
  pub held_shown : (i h : ℕ) → (lib.thr i).held ≡ some h → shown h ≡ true
  pub held_inside : (i h : ℕ) → (lib.thr i).held ≡ some h → i < n
  pub gate_shown :
      (k : ℕ) → handle_of (lib.mem.cb k) ≢ handle_null → shown (handle_of (lib.mem.cb k)) ≡ true
  pub alive_at : (h a : ℕ) → lib.mem.avail h ≡ false → object h ≡ some a → alive a ≡ true
  pub apart :
      (h h' a : ℕ)
      → lib.mem.avail h ≡ false
      → lib.mem.avail h' ≡ false
      → object h ≡ some a
      → object h' ≡ some a
      → h ≡ h'

-- The object of the version is the same, and has the same values.
abbrev pub Same {ℓ} :
    {A : Type ℓ} → (object object' : ℕ → Option ℕ) → (heap heap' : ℕ → A) → Option ℕ → Type ℓ
Same object object' heap heap' ver =
    (h a : ℕ) → ver ≡ some h → object h ≡ some a → (object' h ≡ some a) × (heap' a ≡ heap a)

-- An operation inside a call that neither makes, publishes nor returns a version.
pub record Quiet (lib : System) (i : ℕ) (m : Mem) (t : Thread) : Type 0 where
  pub same_avail : m.avail ≡ lib.mem.avail
  pub same_gates : (k : ℕ) → handle_of (m.cb k) ≡ handle_of (lib.mem.cb k)
  pub same_fresh : t.fresh ≡ (lib.thr i).fresh
  pub same_held : t.held ≡ (lib.thr i).held
  pub not_comparing : (k e new c : ℕ) → t.pc ≢ comparing k e new c

pub inside-Quiet :
    (lib : System) (i : ℕ) {m : Mem} {t : Thread}
    → Move lib.mem (lib.thr i) m t
    → (lib.thr i).pc ≢ Pc.ready
    → ((v : ℕ) → (lib.thr i).pc ≢ reclaiming v)
    → ((k e new c : ℕ) → (lib.thr i).pc ≢ comparing k e new c)
    → Quiet lib i m t
inside-Quiet lib i (make h at e f g) busy going apart = absurd (busy at)
inside-Quiet lib i (discard h at e) busy going apart = absurd (busy at)
inside-Quiet lib i (acquire k at e) busy going apart = absurd (busy at)
inside-Quiet lib i (release h at e) busy going apart = absurd (busy at)
inside-Quiet lib i (exchange k v at e) busy going apart = absurd (busy at)
inside-Quiet lib i (compare k x v at e f) busy going apart = absurd (busy at)
inside-Quiet lib i (cas_win k e new c at same) busy going apart = absurd (apart k e new c at)
inside-Quiet lib i (cas_lose k e new c at) busy going apart = absurd (apart k e new c at)
inside-Quiet lib i (load_inner v r at) busy going apart = record {
  same_avail = refl;
  same_gates = λ k. refl;
  same_fresh = refl;
  same_held = refl;
  not_comparing = λ k e new c z. cc;
}
inside-Quiet lib i (adjust_win v r c at e) busy going apart = record {
  same_avail = refl;
  same_gates = λ k. refl;
  same_fresh = refl;
  same_held = refl;
  not_comparing = λ k e new c z. cc;
}
inside-Quiet lib i (adjust_lose v r c at) busy going apart = record {
  same_avail = refl;
  same_gates = λ k. refl;
  same_fresh = refl;
  same_held = refl;
  not_comparing = λ k e new c z. cc;
}
inside-Quiet lib i (check v st at) busy going apart = record {
  same_avail = refl;
  same_gates = λ k. refl;
  same_fresh = refl;
  same_held = refl;
  not_comparing = λ k e new c z. ground (arith, z);
}
inside-Quiet lib i (claim v at) busy going apart = record {
  same_avail = refl;
  same_gates = λ k. refl;
  same_fresh = refl;
  same_held = refl;
  not_comparing = λ k e new c z. ground (arith, z);
}
inside-Quiet lib i (reclaim v at) busy going apart = absurd (going v at)

-- A version that can be made is not out.
pub make-ne-out : (m : Mem) (h h' : ℕ) → m.avail h ≡ true → m.avail h' ≡ false → h ≢ h'
make-ne-out m h h' is_free out e = ground (arith, out, ap m.avail e, is_free)

module _ {n : ℕ} {lib : System} {object : ℕ → Option ℕ} {alive shown : ℕ → Bool} (few : n < 2 ^ 32)
    (inv : Objects n lib object alive shown) where
  -- What is out.
  pub made_out : (j h : ℕ) → (lib.thr j).fresh ≡ some h → lib.mem.avail h ≡ false
  made_out j h e = (fresh_out few inv.reach j h e).0

  pub shown_out : (j h : ℕ) → (lib.thr j).held ≡ some h → lib.mem.avail h ≡ false
  shown_out j h e = held_out few inv.reach j h (inv.held_inside j h e) e

  -- A version that a thread has made is no other thread's, and was not published.
  pub made-ne-made :
      (i j h h' : ℕ) → i ≢ j → (lib.thr i).fresh ≡ some h → (lib.thr j).fresh ≡ some h' → h ≢ h'
  made-ne-made i j h h' ne e f z = ne (fresh_one few inv.reach i j h e (f ∙ ap some (sym z)))

  pub made-ne-shown : (i h h' : ℕ) → (lib.thr i).fresh ≡ some h → shown h' ≡ true → h ≢ h'
  made-ne-shown i h h' e on z = ground (arith, ap shown z, inv.fresh_hidden i h e, on)

  -- What keeps the versions that are out keeps those of every thread, and what keeps all but the version
  -- that a thread has made keeps those of the others.
  pub out-Same {ℓ} :
      {A : Type ℓ} (object' : ℕ → Option ℕ) (heap heap' : ℕ → A)
      → ((h a : ℕ)
          → lib.mem.avail h ≡ false
          → object h ≡ some a
          → (object' h ≡ some a) × (heap' a ≡ heap a))
      → (j : ℕ)
      → Same object object' heap heap' (lib.thr j).fresh
        × Same object object' heap heap' (lib.thr j).held
  out-Same object' heap heap' out j =
      (λ h a e. out h a (made_out j h e), λ h a e. out h a (shown_out j h e))

  pub other-Same {ℓ} :
      {A : Type ℓ} (object' : ℕ → Option ℕ) (heap heap' : ℕ → A) (i h : ℕ)
      → (lib.thr i).fresh ≡ some h
      → ((h' a : ℕ)
          → h ≢ h'
          → lib.mem.avail h' ≡ false
          → object h' ≡ some a
          → (object' h' ≡ some a) × (heap' a ≡ heap a))
      → (j : ℕ) → i ≢ j
      → Same object object' heap heap' (lib.thr j).fresh
        × Same object object' heap heap' (lib.thr j).held
  other-Same object' heap heap' i h made_h out j ne = (
    λ h' a e. out h' a (made-ne-made i j h h' ne made_h e) (made_out j h' e),
    λ h' a e. out h' a (made-ne-shown i h h' made_h (inv.held_shown j h' e)) (shown_out j h' e),
  )
