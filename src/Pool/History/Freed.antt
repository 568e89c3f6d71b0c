-- ===== src/Pool/History/Freed.antt =====
-- `free_slot` in a history.
use atomsnap.Common.{
  ℕ, ◌≡◌, ◌≢◌, inl, inr, refl, sym, subst, ◌∙◌, true, false, some, List, [], ◌∷◌, arith, ◌==◌,
  Bool-cases,
}
use atomsnap.Common.Outcome.{Outcome, ok, stopped, fault}
use atomsnap.Word.Handle.{construct_handle}
use atomsnap.Pool.Memory.{Pool, Context}
use atomsnap.Pool.Slots.{free_slot, resolve_handle}
use atomsnap.Pool.Stack.Defs.{has}
use atomsnap.Pool.Owned.Defs.{View, IsOwned}
use atomsnap.Pool.Owned.Free.{free_view, free_slot-IsOwned}
use atomsnap.Pool.History.Defs.{System, less, Unlike, Inv, one_slot, used_resolves}

less-ne : (h h' : ℕ) (hs : List ℕ) → h ≢ h' → has h' (less h hs) ≡ has h' hs
less-ne h h' [] ne = refl
less-ne h h' (x ∷ xs) ne = ground (arith, less-ne h h' xs ne)

less_self : (h : ℕ) (hs : List ℕ) → Unlike hs → has h (less h hs) ≡ false
less_self h [] u = refl
less_self h (x ∷ xs) u = ground (arith, less_self h xs)

less-sub : (h h' : ℕ) (hs : List ℕ) → has h' (less h hs) ≡ true → has h' hs ≡ true
less-sub h h' [] on = on
less-sub h h' (x ∷ xs) on = ground (arith, less-sub h h' xs)

Unlike-less : (h : ℕ) (hs : List ℕ) → Unlike hs → Unlike (less h hs)
Unlike-less h [] u = tt
Unlike-less h (x ∷ xs) u = elim (Bool-cases (x == h)) [
  | inl e ↦ rw e u.1
  | inr ne ↦ rw ne (
    elim (Bool-cases (has x (less h xs))) [
      | inl on ↦ absurd (ground (arith, less-sub h x xs on))
      | inr off ↦ off
    ],
    Unlike-less h xs u.1,
  )
]

-- `free_slot` of a handle that is held.
module _ (s : System) (inv : Inv s) (h k i : ℕ) (on : inv.view.used k i ≡ true)
    (named : h ≡ construct_handle (inv.view.id k) i) where
  abbrev v : View
  v = inv.view

  abbrev v' : View
  v' = free_view v k i

  freed_held_used :
      (h' : ℕ)
      → has h' (less h s.held) ≡ true
      → (j : ℕ) × (m : ℕ) × (v'.used j m ≡ true) × (h' ≡ construct_handle (v.id j) m)
  freed_held_used h' there =
      let ne : h ≢ h' = (λ e. ground (arith, less_self h s.held inv.unlike)) in
      let (j, m, used_j, e) = inv.held_used h' (less-sub h h' s.held there) in
      let apart : (k ≡ j) → (i ≡ m) → ⊥ = λ e1 e2. ne (named ∙ rw (e1, e2) (sym e)) in
      (j, m, ground (arith, apart), e)

  freed_used_held :
      (j m : ℕ) → v'.used j m ≡ true → has (construct_handle (v.id j) m) (less h s.held) ≡ true
  freed_used_held j m still =
      let used_j : v.used j m ≡ true = ground arith in
      let ne : h ≢ construct_handle (v.id j) m = (λ e.
        let (e1, e2) = one_slot inv.owned k i j m on used_j (sym named ∙ e) in ground arith) in
      less-ne h (construct_handle (v.id j) m) s.held ne ∙ inv.used_held j m used_j

  freed-Inv :
      (p' : Pool)
      → IsOwned s.ctx p' v'
      → Inv (record { ctx = s.ctx; pool = p'; held = less h s.held })
  freed-Inv p' o' = record {
    view = v';
    owned = o';
    unlike = Unlike-less h s.held inv.unlike;
    held_used = freed_held_used;
    used_held = freed_used_held;
  }

-- What holds after `free_slot`, which neither stops nor faults.
abbrev pub After : Context → List ℕ → Outcome Pool (Unit {0}) → Type 0
After ctx held (ok u p) = Inv (record { ctx = ctx; pool = p; held = held })
After ctx held stopped = ⊥
After ctx held fault = ⊥

-- A handle that is held resolves, and is freed.
pub free_slot-After :
    (s : System) (n h : ℕ)
    → Inv s
    → has h s.held ≡ true
    → (slot : ℕ × ℕ) × (resolve_handle s.pool.g_arena_table h ≡ some slot)
      × After s.ctx (less h s.held) (free_slot n slot s.pool)
free_slot-After s n h inv there =
    let (k, i, on, named) = inv.held_used h there in
    let (runs, o') = free_slot-IsOwned s.ctx s.pool inv.view inv.owned k i on n in
    (
      (inv.view.addr k, i),
      used_resolves inv.owned k i h on named,
      subst (After s.ctx (less h s.held)) (sym runs) (freed-Inv s inv h k i on named _ o'),
    )
