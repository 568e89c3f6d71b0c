-- ===== src/Bench/Counted/Invariant.antt =====
-- What every reachable state of the benchmark over shared pointers satisfies.
use atomsnap.Common.{
  ℕ, ◌+◌, ◌≤◌, ◌<◌, ◌≡◌, ◌≢◌, ◌⊎◌, inl, inr, refl, sym, ap, ◌∙◌, subst, Bool, true, false, Option,
  some, arith,
}
use atomsnap.Common.Family.{update, update_cases, sum, sum-same}
use atomsnap.Bench.Counted.Machine.{
  Data, Mem, Pc, w_start, w_top, w_got, w_half, w_full, w_won, r_top, r_got, r_one, r_two, r_three,
  exited, crashed, Thread, System,
}

-- What holds where a thread stands; `cur` is the first value of the published object.
abbrev pub At : (heap : ℕ → Data) (cur : ℕ) (new_data loaded : Option ℕ) (prev : ℕ) → Pc → Type 0
At heap cur new_data loaded prev w_start = Unit {0}
At heap cur new_data loaded prev w_top = (a : ℕ) × (new_data ≡ some a)
At heap cur new_data loaded prev w_got = (a : ℕ) × (b : ℕ) × (new_data ≡ some a) × (loaded ≡ some b)
At heap cur new_data loaded prev w_half =
    (a : ℕ) × (b : ℕ) × (new_data ≡ some a)
    × (loaded ≡ some b)
    × ((heap a).value1 ≡ (heap b).value1 + 1)
At heap cur new_data loaded prev w_full =
    (a : ℕ) × (b : ℕ) × (new_data ≡ some a)
    × (loaded ≡ some b)
    × ((heap a).value1 ≡ (heap b).value1 + 1)
    × ((heap a).value2 ≡ (heap b).value2 + 1)
At heap cur new_data loaded prev w_won = Unit {0}
At heap cur new_data loaded prev r_top = prev ≤ cur
At heap cur new_data loaded prev r_got = (b : ℕ) × (loaded ≡ some b) × (prev ≤ (heap b).value1)
At heap cur new_data loaded prev (r_one v1) =
    (b : ℕ) × (loaded ≡ some b) × (prev ≤ (heap b).value1) × (v1 ≡ (heap b).value1)
At heap cur new_data loaded prev r_two = (b : ℕ) × (loaded ≡ some b) × (prev ≤ (heap b).value1)
At heap cur new_data loaded prev r_three = (b : ℕ) × (loaded ≡ some b)
At heap cur new_data loaded prev exited = ⊥
At heap cur new_data loaded prev crashed = ⊥

abbrev pub Stands : Mem → Thread → Type 0
Stands m t = At m.heap (m.heap m.global_ptr).value1 t.new_data t.loaded t.prev_value t.pc

-- The object that the thread has not published.
abbrev pub writing : Pc → Bool
writing w_top = true
writing w_got = true
writing w_half = true
writing w_full = true
writing _ = false

abbrev pub Mine : Thread → (a : ℕ) → Type 0
Mine t a = (writing t.pc ≡ true) × (t.new_data ≡ some a)

-- An object that the thread has published and not counted.
abbrev pub uncounted : Pc → ℕ
uncounted w_won = 1
uncounted _ = 0

abbrev pub writes : (ℕ → Thread) → ℕ → ℕ
writes thr j = (thr j).ops + uncounted (thr j).pc

pub record Inv (n : ℕ) (s : System) : Type 0 where
  pub equal : (s.mem.heap s.mem.global_ptr).value1 ≡ (s.mem.heap s.mem.global_ptr).value2
  pub good :
      (i b : ℕ)
      → (s.thr i).loaded ≡ some b
      → ((s.mem.heap b).value1 ≡ (s.mem.heap b).value2)
        × ((s.mem.heap b).value1 ≤ (s.mem.heap s.mem.global_ptr).value1)
  pub unshared : (i a : ℕ) → Mine (s.thr i) a → a ≢ s.mem.global_ptr
  pub unloaded : (i j a : ℕ) → Mine (s.thr i) a → (s.thr j).loaded ≢ some a
  pub apart : (i j a : ℕ) → Mine (s.thr i) a → Mine (s.thr j) a → i ≡ j
  pub stands : (i : ℕ) → Stands s.mem (s.thr i)
  pub written : (s.mem.heap s.mem.global_ptr).value1 ≡ sum n (writes s.thr)

-- A thread stands as before when the objects that it loaded and has made are the same.
pub kept-At :
    (heap heap' : ℕ → Data) (cur cur' : ℕ) (new_data loaded : Option ℕ) (prev : ℕ) (pc : Pc)
    → cur ≤ cur'
    → ((b : ℕ) → loaded ≡ some b → heap' b ≡ heap b)
    → ((a : ℕ) → writing pc ≡ true → new_data ≡ some a → heap' a ≡ heap a)
    → At heap cur new_data loaded prev pc
    → At heap' cur' new_data loaded prev pc
kept-At heap heap' cur cur' new_data loaded prev w_start more old own h = tt
kept-At heap heap' cur cur' new_data loaded prev w_top more old own h = h
kept-At heap heap' cur cur' new_data loaded prev w_got more old own h = h
kept-At heap heap' cur cur' new_data loaded prev w_half more old own (a, b, e, f, v) =
    (a, b, e, f, ground (arith, own a refl e, old b f, v))
kept-At heap heap' cur cur' new_data loaded prev w_full more old own (a, b, e, f, v, w) =
    (a, b, e, f, ground (arith, own a refl e, old b f, v), ground (arith, own a refl e, old b f, w))
kept-At heap heap' cur cur' new_data loaded prev w_won more old own h = tt
kept-At heap heap' cur cur' new_data loaded prev r_top more old own h = omega (arith, h, more)
kept-At heap heap' cur cur' new_data loaded prev r_got more old own (b, e, le) =
    (b, e, ground (arith, old b e, le))
kept-At heap heap' cur cur' new_data loaded prev (r_one v1) more old own (b, e, le, v) =
    (b, e, ground (arith, old b e, le), ground (arith, old b e, v))
kept-At heap heap' cur cur' new_data loaded prev r_two more old own (b, e, le) =
    (b, e, ground (arith, old b e, le))
kept-At heap heap' cur cur' new_data loaded prev r_three more old own h = h
kept-At heap heap' cur cur' new_data loaded prev exited more old own h = h
kept-At heap heap' cur cur' new_data loaded prev crashed more old own h = h

module _ {n : ℕ} {s : System} (inv : Inv n s) (i : ℕ) (lt : i < n) where
  -- One thread has written as much as before.
  still_writes :
      (t' : Thread)
      → t'.ops + uncounted t'.pc ≡ (s.thr i).ops + uncounted (s.thr i).pc
      → sum n (writes (update s.thr i t')) ≡ sum n (writes s.thr)
  still_writes t' same = sum-same n (writes (update s.thr i t')) (writes s.thr) (λ j _.
      update_cases (λ j t. t.ops + uncounted t.pc ≡ writes s.thr j) s.thr i t' same (λ j ne. refl)
        j)

  -- A step of a thread that stores nothing.
  pub local-Inv :
      (t' : Thread)
      → ((a : ℕ) → Mine t' a → Mine (s.thr i) a)
      → ((b : ℕ) → t'.loaded ≡ some b → ((s.thr i).loaded ≡ some b) ⊎ (b ≡ s.mem.global_ptr))
      → Stands s.mem t'
      → t'.ops + uncounted t'.pc ≡ (s.thr i).ops + uncounted (s.thr i).pc
      → Inv n (record s { thr = update s.thr i t' })
  local-Inv t' own old st count = record {
    equal = inv.equal;
    good =
        update_cases
          (λ j t.
            (b : ℕ)
            → t.loaded ≡ some b
            → ((s.mem.heap b).value1 ≡ (s.mem.heap b).value2)
              × ((s.mem.heap b).value1 ≤ (s.mem.heap s.mem.global_ptr).value1))
          s.thr i t'
          (λ b e. elim (old b e) [
            | inl f ↦ inv.good i b f
            | inr f ↦
                subst
                  (λ (x : ℕ).
                    ((s.mem.heap x).value1 ≡ (s.mem.heap x).value2)
                    × ((s.mem.heap x).value1 ≤ (s.mem.heap s.mem.global_ptr).value1))
                  (sym f) (inv.equal, omega arith)
          ])
          (λ j ne. inv.good j);
    unshared = λ j a e. inv.unshared j a (back j a e);
    unloaded = λ j k a e.
        update_cases (λ k t. t.loaded ≢ some a) s.thr i t'
          (λ f. elim (old a f) [
            | inl g ↦ inv.unloaded j i a (back j a e) g
            | inr g ↦ inv.unshared j a (back j a e) g
          ])
          (λ k ne. inv.unloaded j k a (back j a e)) k;
    apart = λ j k a e f. inv.apart j k a (back j a e) (back k a f);
    stands = update_cases (λ j t. Stands s.mem t) s.thr i t' st (λ j ne. inv.stands j);
    written = inv.written ∙ sym (still_writes t' count);
  }
    where
      back : (j a : ℕ) → Mine (update s.thr i t' j) a → Mine (s.thr j) a
      back j a =
          update_cases (λ j t. Mine t a → Mine (s.thr j) a) s.thr i t' (own a) (λ j ne e. e) j

  -- A store to the thread's own object.
  pub write-Inv :
      (a : ℕ) (d : Data) (p : Pc)
      → Mine (s.thr i) a
      → Mine (record (s.thr i) { pc = p }) a
      → uncounted p ≡ uncounted (s.thr i).pc
      → Stands (record s.mem { heap = update s.mem.heap a d }) (record (s.thr i) { pc = p })
      → Inv n (record {
        mem = record s.mem { heap = update s.mem.heap a d };
        thr = update s.thr i (record (s.thr i) { pc = p });
      })
  write-Inv a d p own own' count st =
      let t' : Thread = record (s.thr i) { pc = p } in
      let global : update s.mem.heap a d s.mem.global_ptr ≡ s.mem.heap s.mem.global_ptr =
        ground (arith, inv.unshared i a own) in
      let other : (j b : ℕ) → (s.thr j).loaded ≡ some b → update s.mem.heap a d b ≡ s.mem.heap b =
        λ j b e. ground (arith, inv.unloaded i j a own, e) in
      let back : (j b : ℕ) → Mine (update s.thr i t' j) b → Mine (s.thr j) b = λ j b.
        update_cases (λ j t. Mine t b → Mine (s.thr j) b) s.thr i t' (λ e. (own.0, e.1))
          (λ j ne e. e) j in
      let still : (j : ℕ) → (update s.thr i t' j).loaded ≡ (s.thr j).loaded =
        λ j. update_cases (λ j t. t.loaded ≡ (s.thr j).loaded) s.thr i t' refl (λ j ne. refl) j in
      record {
        equal = ground (arith, global, inv.equal);
        good = λ j b e.
            let e' = sym (still j) ∙ e in ground (arith, global, other j b e', inv.good j b e');
        unshared = λ j b e. inv.unshared j b (back j b e);
        unloaded = λ j k b e f. inv.unloaded j k b (back j b e) (sym (still k) ∙ f);
        apart = λ j k b e f. inv.apart j k b (back j b e) (back k b f);
        stands =
            update_cases (λ j t. Stands (record s.mem { heap = update s.mem.heap a d }) t) s.thr i
              t' st
              (λ j ne.
                kept-At s.mem.heap (update s.mem.heap a d) (s.mem.heap s.mem.global_ptr).value1
                  (update s.mem.heap a d s.mem.global_ptr).value1 (s.thr j).new_data
                  (s.thr j).loaded (s.thr j).prev_value (s.thr j).pc (ground (arith, global))
                  (λ b e. other j b e)
                  (λ b w e.
                    ground
                      (arith, λ (z : a ≡ b). ne (inv.apart i j a own (w, e ∙ ap some (sym z)))))
                  (inv.stands j));
        written =
            ap (λ x. x.value1) global
            ∙ inv.written
            ∙ sym (still_writes t' (ap (λ x. (s.thr i).ops + x) count));
      }
