-- ===== src/Pool/History/Given.antt =====
-- `alloc_slot` in a history.
use atomsnap.Common.{
  ℕ, ◌≡◌, ◌≢◌, inl, inr, sym, subst, ap, ◌∙◌, true, false, List, ◌∷◌, arith, ℕ_discrete, ==_ne,
  Bool-cases,
}
use atomsnap.Common.Outcome.{Outcome, ok, stopped, fault}
use atomsnap.Word.Pair.{handle_null}
use atomsnap.Word.Handle.{construct_handle, construct_handle_fields}
use atomsnap.Pool.Memory.{Pool, Context, Host}
use atomsnap.Pool.Alloc.{alloc_slot}
use atomsnap.Pool.Stack.Defs.{has}
use atomsnap.Pool.Owned.Defs.{View, IsOwned, Extends}
use atomsnap.Pool.Owned.Take.{Gives, gives, refuses}
use atomsnap.Pool.Owned.Alloc.{alloc_slot-Allocates}
use atomsnap.Pool.History.Defs.{
  System, with_given, IsFair, Inv, used_inside, one_slot, IsFair-IsNew,
}

-- `alloc_slot` gives a handle that no one holds.
module _ (s : System) (inv : Inv s) (h : ℕ) (ctx' : Context) (p' : Pool) (v' : View)
    (o' : IsOwned ctx' p' v') (ext : Extends inv.view v') (given : Gives inv.view v' p' h) where
  abbrev v : View
  v = inv.view

  now_on : v'.used given.k given.i ≡ true
  now_on = ground (arith, given.now_used given.k given.i)

  still_on : (j m : ℕ) → v.used j m ≡ true → v'.used j m ≡ true
  still_on j m on = ground (arith, given.now_used j m)

  same_handle :
      (j m : ℕ) → v.used j m ≡ true → construct_handle (v'.id j) m ≡ construct_handle (v.id j) m
  same_handle j m on =
      ap (λ i. construct_handle i m) (ext.same_id j (used_inside inv.owned j m on).0)

  pub given-ne_null : h ≢ handle_null
  given-ne_null e =
      let (lt, fits) = used_inside o' given.k given.i now_on in
      (construct_handle_fields (v'.id given.k) given.i (o'.table.id_small given.k lt) fits).3
        (sym given.handle_is ∙ e)

  was_used : has h s.held ≡ true → v.used given.k given.i ≡ true
  was_used on =
      let (k, i, used_k, e) = inv.held_used h on in
      let (same_k, same_i) =
        one_slot o' k i given.k given.i (still_on k i used_k) now_on
          (same_handle k i used_k ∙ sym e ∙ given.handle_is) in
      ground arith

  pub not_held : has h s.held ≡ false
  not_held = elim (Bool-cases (has h s.held)) [
    | inl on ↦ absurd (ground (arith, was_used on, given.was_free))
    | inr off ↦ off
  ]

  held_used_after :
      (h' : ℕ)
      → has h' (h ∷ s.held) ≡ true
      → (k : ℕ) × (i : ℕ) × (v'.used k i ≡ true) × (h' ≡ construct_handle (v'.id k) i)
  held_used_after h' on = elim (ℕ_discrete h h') [
    | yes e ↦ (given.k, given.i, now_on, sym e ∙ given.handle_is)
    | no ne ↦
        let (k, i, used_k, e) = inv.held_used h' (ground arith) in
        (k, i, still_on k i used_k, e ∙ sym (same_handle k i used_k))
  ]

  used_held_after :
      (k i : ℕ) → v'.used k i ≡ true → has (construct_handle (v'.id k) i) (h ∷ s.held) ≡ true
  used_held_after k i on = elim (Bool-cases (v.used k i)) [
    | inl old ↦
        subst (λ e. has e (h ∷ s.held) ≡ true) (sym (same_handle k i old))
          (ground (arith, inv.used_held k i old))
    | inr new ↦
        let same_k : k ≡ given.k = ground (arith, given.now_used k i) in
        let same_i : i ≡ given.i = ground (arith, given.now_used k i) in
        let named : h ≡ construct_handle (v'.id k) i = rw (same_k, same_i) given.handle_is in
        subst (λ e. has e (h ∷ s.held) ≡ true) named (ground arith)
  ]

  given-Inv : Inv (record { ctx = ctx'; pool = p'; held = with_given h s.held })
  given-Inv = rw (==_ne h handle_null given-ne_null) (record {
    view = v';
    owned = o';
    unlike = (not_held, inv.unlike);
    held_used = held_used_after;
    used_held = used_held_after;
  })

-- A refusal leaves what is held.
refused-Inv :
    (s : System) (inv : Inv s) (ctx' : Context) (p' : Pool) (v' : View)
    → IsOwned ctx' p' v'
    → Extends inv.view v'
    → ((j m : ℕ) → v'.used j m ≡ inv.view.used j m)
    → Inv (record { ctx = ctx'; pool = p'; held = s.held })
refused-Inv s inv ctx' p' v' o' ext same =
    let same_handle : (j m : ℕ)
        → inv.view.used j m ≡ true
        → construct_handle (v'.id j) m ≡ construct_handle (inv.view.id j) m =
      λ j m on. ap (λ i. construct_handle i m) (ext.same_id j (used_inside inv.owned j m on).0) in
    record {
      view = v';
      owned = o';
      unlike = inv.unlike;
      held_used = λ h on.
          let (k, i, used_k, e) = inv.held_used h on in
          (k, i, same k i ∙ used_k, e ∙ sym (same_handle k i used_k));
      used_held = λ k i on.
          let old : inv.view.used k i ≡ true = sym (same k i) ∙ on in
          subst (λ e. has e s.held ≡ true) (sym (same_handle k i old)) (inv.used_held k i old);
    }

-- What holds after `alloc_slot`, which neither stops nor faults.
abbrev pub After : List ℕ → Outcome Pool (ℕ × Context) → Type 0
After held (ok (h, ctx) p) = Inv (record { ctx = ctx; pool = p; held = with_given h held })
After held stopped = ⊥
After held fault = ⊥

pub alloc_slot-After :
    (s : System) (host : Host)
    → Inv s
    → IsFair host s.pool
    → After s.held (alloc_slot host s.ctx s.pool)
alloc_slot-After s host inv fair =
    elim (alloc_slot-Allocates host fair.both s.ctx s.pool inv.view inv.owned
      (IsFair-IsNew inv.owned host fair)) [
        | gives h ctx' p' v' runs o' ext given ↦
            subst (After s.held) (sym runs) (given-Inv s inv h ctx' p' v' o' ext given)
        | refuses ctx' p' v' runs o' ext same why ↦
            subst (After s.held) (sym runs) (refused-Inv s inv ctx' p' v' o' ext same)
      ]
