-- ===== src/Load/Grace.antt =====
-- No block goes back to the pool before a grace period has passed since it was replaced.
use atomsnap.Common.{
  ℕ, ◌+◌, ◌%◌, ◌<◌, ◌≡◌, ◌⊎◌, inl, inr, refl, ap, ◌∙◌, subst, Option, none, some, List, [], ◌∷◌,
  ◌++◌, length, arith, ◌==◌, ==_refl, leb, if◌then◌else◌, Bool-cases, Option-cases,
}
use atomsnap.Word.Pair.{u64}
use atomsnap.Load.Writer.{
  Event, replaced, call_rcu_memb, synchronize_rcu_memb, pool_free, Reclaim, async, sync_batch, Plan,
  Writer, free_all, flush, push_back, retire, swap, update_shard, turn, turns, interval, flush_rest,
  finish, writer_loop,
}

-- The blocks that were replaced since the last grace period, and those that may go back to the pool.
abbrev pub Account : Type 0
Account = List ℕ × List ℕ

-- An event in an account; `none` if a block goes back too early, twice or without being replaced.
unfoldable pub book : Event → Account → Option Account
book (replaced x) (waiting, free) = some (waiting ++ (x ∷ []), free)
book (call_rcu_memb x) ([], free) = none
book (call_rcu_memb x) (y ∷ waiting, free) = if x == y then some (waiting, free) else none
book synchronize_rcu_memb (waiting, free) = some ([], free ++ waiting)
book (pool_free x) (waiting, []) = none
book (pool_free x) (waiting, y ∷ free) = if x == y then some (waiting, free) else none

unfoldable pub books : List Event → Account → Option Account
books [] a = some a
books (e ∷ log) a = elim (book e a) [ some a' ↦ books log a' | none ↦ none ]

-- The log leaves the account.
abbrev pub Leaves : List Event → Account → Type 0
Leaves log a = books log ([], []) ≡ some a

books-append :
    (log more : List Event) (a b : Account)
    → books log a ≡ some b
    → books (log ++ more) a ≡ books more b
unfolding books
books-append [] more a b h = ground arith
books-append (e ∷ log) more a b h = elim (Option-cases (book e a)) [
  | inl wrong ↦ ground (arith, wrong, h)
  | inr (a', right) ↦ ground (arith, right, h, books-append log more a' b)
]

Leaves-event :
    (log : List Event) (e : Event) (a b : Account)
    → Leaves log a
    → book e a ≡ some b
    → Leaves (log ++ (e ∷ [])) b
unfolding books
Leaves-event log e a b h right = books-append log (e ∷ []) ([], []) a h ∙ ground (arith, right)

append-nil : (xs : List ℕ) → xs ++ [] ≡ xs
append-nil [] = refl
append-nil (x ∷ xs) = ap (λ (ys : List ℕ). x ∷ ys) (append-nil xs)

book-pool_free : (x : ℕ) (xs : List ℕ) → book (pool_free x) ([], x ∷ xs) ≡ some ([], xs)
unfolding book
book-pool_free x xs = rw (==_refl x) refl

-- The loop that frees all empties what may go back.
free_all_lem :
    (xs : List ℕ) (w : Writer) → Leaves w.log ([], xs) → Leaves (free_all xs w).log ([], [])
unfolding free_all
free_all_lem [] w h = h
free_all_lem (x ∷ xs) w h =
    free_all_lem xs _
      (Leaves-event w.log (pool_free x) ([], x ∷ xs) ([], xs) h (book-pool_free x xs))

flush_lem : (w : Writer) → Leaves w.log (w.rl, []) → Leaves (flush w).log ([], [])
unfolding flush book
flush_lem w h =
    free_all_lem w.rl _ (Leaves-event w.log synchronize_rcu_memb (w.rl, []) ([], w.rl) h refl)

shard-free_all : (xs : List ℕ) (w : Writer) → (free_all xs w).shard ≡ w.shard
unfolding free_all
shard-free_all [] w = refl
shard-free_all (x ∷ xs) w = shard-free_all xs _

-- What the writer's list may be between two iterations.
abbrev pub Short : Reclaim → (batch : ℕ) → List ℕ → Type 0
Short async batch xs = xs ≡ []
Short sync_batch batch xs = (xs ≡ []) ⊎ (length xs < batch)

-- Between two iterations.
pub record Inv (plan : Plan) (w : Writer) : Type 0 where
  pub in_list : Leaves w.log (w.rl, [])
  pub short : Short plan.reclaim plan.batch w.rl
  pub inside : w.shard < plan.shards

book-call_rcu :
    (old : ℕ) (xs : List ℕ)
    → xs ≡ []
    → book (call_rcu_memb old) (xs ++ (old ∷ []), []) ≡ some (xs, [])
unfolding book
book-call_rcu old xs e = rw (e, ==_refl old) refl

-- The state after `retire`.
abbrev Retired : Reclaim → (batch shard : ℕ) → Writer → Type 0
Retired reclaim batch shard w =
    Leaves w.log (w.rl, []) × Short reclaim batch w.rl × (w.shard ≡ shard)

-- `retire` of a block that was just replaced.
retire_lem :
    (reclaim : Reclaim) (batch : ℕ) (old : ℕ) (w : Writer)
    → Short reclaim batch w.rl
    → Leaves w.log (w.rl ++ (old ∷ []), [])
    → Retired reclaim batch w.shard (retire reclaim batch (some old) w)
unfolding retire push_back
retire_lem async batch old w short h = (
  Leaves-event w.log (call_rcu_memb old) (w.rl ++ (old ∷ []), []) (w.rl, []) h
      (book-call_rcu old w.rl short),
  short,
  refl,
)
retire_lem sync_batch batch old w short h =
    elim (Bool-cases (leb batch (length (w.rl ++ (old ∷ []))))) [
      | inl full ↦ rw full (
          unfold flush in
          (flush_lem (push_back old w) h, inl refl, shard-free_all (w.rl ++ (old ∷ [])) _))
      | inr room ↦ rw room (h, inr (ground (arith, room)), refl)
    ]

-- The exchange and what follows it.
swap-retire :
    (reclaim : Reclaim) (batch : ℕ) (old : Option ℕ) (mem : ℕ) (w : Writer)
    → Short reclaim batch w.rl
    → Leaves w.log (w.rl, [])
    → Retired reclaim batch w.shard (retire reclaim batch old (swap old mem w))
unfolding swap retire
swap-retire reclaim batch none mem w short h = (h, short, refl)
swap-retire reclaim batch (some old) mem w short h =
    retire_lem reclaim batch old (swap (some old) mem w) short (
      Leaves-event w.log (replaced old) (w.rl, []) (w.rl ++ (old ∷ []), []) h (unfold book in refl))

module _ (plan : Plan) (some_shard : 0 < plan.shards) where
  update_shard-Inv : (mem : ℕ) (w : Writer) → Inv plan w → Inv plan (update_shard plan mem w)
  unfolding update_shard
  update_shard-Inv mem w inv =
      let (h, short, same) =
        swap-retire plan.reclaim plan.batch (w.gptrs w.shard) mem _ inv.short inv.in_list in
      record { in_list = h; short = short; inside = ground (arith, same, inv.inside) }

  turn-Inv : (now mem : ℕ) (w : Writer) → Inv plan w → Inv plan (turn plan now mem w)
  unfolding turn
  turn-Inv now mem w inv =
      let later : Writer = record w { next_tick = u64 (w.next_tick + interval plan) } in
      let kept : Inv plan later = record {
        in_list = inv.in_list;
        short = inv.short;
        inside = inv.inside;
      } in
      ground (arith, inv, update_shard-Inv mem w inv, update_shard-Inv mem later kept)

  -- After each iteration of a writer, the shard is one of the plan's, and under sync-batch the list of
  -- replaced blocks is empty or shorter than the batch; under async it is empty.
  turns-Inv : (inputs : List (ℕ × ℕ)) (w : Writer) → Inv plan w → Inv plan (turns plan inputs w)
  unfolding turns
  turns-Inv [] w inv = inv
  turns-Inv ((now, mem) ∷ rest) w inv = turns-Inv rest _ (turn-Inv now mem w inv)

flush_rest_lem :
    (xs : List ℕ) (w : Writer)
    → w.rl ≡ xs
    → Leaves w.log (w.rl, [])
    → Leaves (flush_rest xs w).log ([], []) × ((flush_rest xs w).rl ≡ [])
unfolding flush_rest
flush_rest_lem [] w e h = (subst (λ (ys : List ℕ). Leaves w.log (ys, [])) e h, e)
flush_rest_lem (x ∷ xs) w e h = (flush_lem w h, unfold flush in refl)

finish_lem :
    (reclaim : Reclaim) (batch : ℕ) (w : Writer)
    → Leaves w.log (w.rl, [])
    → Short reclaim batch w.rl
    → Leaves (finish reclaim w).log ([], []) × ((finish reclaim w).rl ≡ [])
unfolding finish
finish_lem async batch w h short = (subst (λ (ys : List ℕ). Leaves w.log (ys, [])) short h, short)
finish_lem sync_batch batch w h short = flush_rest_lem w.rl w refl h

pub no_books : (log : List Event) (rl : List ℕ) → log ≡ [] → rl ≡ [] → Leaves log (rl, [])
unfolding books
no_books log rl e1 e2 = rw (e1, e2) refl

nil-Short : (reclaim : Reclaim) (batch : ℕ) (xs : List ℕ) → xs ≡ [] → Short reclaim batch xs
nil-Short async batch xs e = e
nil-Short sync_batch batch xs e = inl e

-- `writer_loop` of a writer whose list is empty: each block that it replaced went to `call_rcu_memb`, or back
-- to the pool after a `synchronize_rcu_memb` that came after it was replaced; once, in the order in which they
-- were replaced, and none is left.
pub writer_loop_grace :
    (plan : Plan) (wid start : ℕ) (inputs : List (ℕ × ℕ)) (w : Writer)
    → 0 < plan.shards
    → w.rl ≡ []
    → w.log ≡ []
    → Leaves (writer_loop plan wid start inputs w).log ([], [])
      × ((writer_loop plan wid start inputs w).rl ≡ [])
unfolding writer_loop
writer_loop_grace plan wid start inputs w some_shard empty fresh =
    let start_inv : Inv plan (record w { seq = 0; shard = wid % plan.shards; next_tick = start }) =
      record {
        in_list = no_books w.log w.rl fresh empty;
        short = nil-Short plan.reclaim plan.batch w.rl empty;
        inside = omega (arith, some_shard);
      } in
    let inv = turns-Inv plan some_shard inputs _ start_inv in
    finish_lem plan.reclaim plan.batch _ inv.in_list inv.short
