-- ===== src/Tagged/Order.antt =====
-- The free list is a stack: `free` pushes a block, and `alloc` pops one.
use atomsnap.Common.{
  ℕ, zero, suc, ◌+◌, ◌%◌, ◌≡◌, ◌≢◌, ◌<◌, refl, false, Option, some, List, [], ◌∷◌, arith, ap, ◌∙◌,
  ==_ne, bit_or, ◌*◌, ◌/◌, ◌^◌,
}
use atomsnap.Common.Family.{update, update-update}
use atomsnap.Common.Bits.{bit_or-shift}
use atomsnap.Common.Outcome.{ok}
use atomsnap.Pool.Stack.Defs.{has}
use atomsnap.Tagged.Blocks.{
  TaggedFreeList, pack, ptr_from, tag_from, alloc_loop, alloc, free_loop, free,
}

-- A pointer to a multiple of 16 and a tag of 4 bits come back from the word that packs them.
pub pack_fields :
    (p t : ℕ) → p % 16 ≡ 0 → t < 16 → (ptr_from (pack p t) ≡ p) × (tag_from (pack p t) ≡ t)
unfolding pack
pack_fields p t aligned small =
    let sum : bit_or (p / 16 * 2 ^ 4) (t % 16) ≡ p / 16 * 2 ^ 4 + t % 16 =
      bit_or-shift 4 (p / 16) (t % 16) (omega arith) in
    let whole : p ≡ p / 16 * 2 ^ 4 = omega (arith, aligned) in
    let packed : bit_or p (t % 16) ≡ p + t =
      ap (λ (q : ℕ). bit_or q (t % 16)) whole ∙ omega (arith, sum, aligned, small) in
    (omega (arith, packed), omega (arith, packed))

-- The blocks `xs`, aligned and distinct, are linked from `p` to NULL.
abbrev pub Linked : (next : ℕ → ℕ) → (p : ℕ) → List ℕ → Type 0
Linked next p [] = p ≡ 0
Linked next p (x ∷ xs) =
    (p ≡ x) × (x ≢ 0) × (x % 16 ≡ 0) × (has x xs ≡ false) × Linked next (next x) xs

Linked-update :
    (next : ℕ → ℕ) (p : ℕ) (xs : List ℕ) (n q : ℕ)
    → has n xs ≡ false
    → Linked next p xs
    → Linked (update next n q) p xs
Linked-update next p [] n q out c = c
Linked-update next p (x ∷ xs) n q out c =
    let kept : update next n q x ≡ next x = ground arith in
    (c.0, c.1, c.2, c.3, rw kept (Linked-update next (next x) xs n q (ground arith) c.4))

-- The state after `free` of `n` from the state `l`.
abbrev pub freed : TaggedFreeList → (n : ℕ) → TaggedFreeList
freed l n = record l {
  next = update l.next n (ptr_from l.head);
  head = pack n ((tag_from l.head + 1) % 16);
}

free_loop_lem : (k n : ℕ) (l : TaggedFreeList) → free_loop k n l.head l ≡ ok tt (freed l n)
unfolding free_loop
free_loop_lem zero n l = refl
free_loop_lem (suc k) n l =
    free_loop_lem k n (record l { next = update l.next n (ptr_from l.head) })
    ∙ ap (λ (f : ℕ → ℕ). ok tt (record l { next = f; head = pack n ((tag_from l.head + 1) % 16) }))
        (update-update l.next n (ptr_from l.head) (ptr_from l.head))

-- `free` of a block that is not on the list puts it on top and adds one to the tag modulo 16, whatever
-- the number of failures of the weak compare-exchange.
pub free-Linked :
    (k n : ℕ) (l : TaggedFreeList) (xs : List ℕ)
    → n ≢ 0
    → n % 16 ≡ 0
    → has n xs ≡ false
    → Linked l.next (ptr_from l.head) xs
    → (free k (some n) l ≡ ok tt (freed l n))
      × Linked (freed l n).next (ptr_from (freed l n).head) (n ∷ xs)
      × (tag_from (freed l n).head ≡ (tag_from l.head + 1) % 16)
unfolding free
free-Linked k n l xs real aligned out c =
    let fields = pack_fields n ((tag_from l.head + 1) % 16) aligned (omega arith) in
    let stored : update l.next n (ptr_from l.head) n ≡ ptr_from l.head = ground arith in
    (
      free_loop_lem k n l,
      (
        fields.0,
        real,
        aligned,
        out,
        rw stored (Linked-update l.next (ptr_from l.head) xs n (ptr_from l.head) out c),
      ),
      fields.1,
    )

-- The state after `alloc` of the block `x` on top.
abbrev pub taken : TaggedFreeList → (x : ℕ) → TaggedFreeList
taken l x = record l { head = pack (l.next x) ((tag_from l.head + 1) % 16) }

alloc_loop_lem :
    (k : ℕ) (system : ℕ → ℕ → Option ℕ) (l : TaggedFreeList)
    → ptr_from l.head ≢ 0
    → alloc_loop k system l.head l ≡ ok (ptr_from l.head) (taken l (ptr_from l.head))
unfolding alloc_loop
alloc_loop_lem zero system l real = rw (==_ne (ptr_from l.head) 0 real) refl
alloc_loop_lem (suc k) system l real =
    rw (==_ne (ptr_from l.head) 0 real) (alloc_loop_lem k system l real)

Linked-aligned : (next : ℕ → ℕ) (p : ℕ) (xs : List ℕ) → Linked next p xs → p % 16 ≡ 0
Linked-aligned next p [] c = omega (arith, c)
Linked-aligned next p (x ∷ xs) c = omega (arith, c.0, c.2)

-- `alloc` returns the top block without asking the system, the rest of the list stays, and one is
-- added to the tag modulo 16, whatever the number of failures of the weak compare-exchange.
pub alloc-Linked :
    (k : ℕ) (system : ℕ → ℕ → Option ℕ) (l : TaggedFreeList) (x : ℕ) (xs : List ℕ)
    → Linked l.next (ptr_from l.head) (x ∷ xs)
    → (alloc k system l ≡ ok x (taken l x))
      × Linked (taken l x).next (ptr_from (taken l x).head) xs
      × (tag_from (taken l x).head ≡ (tag_from l.head + 1) % 16)
unfolding alloc
alloc-Linked k system l x xs c =
    let fields =
      pack_fields (l.next x) ((tag_from l.head + 1) % 16) (Linked-aligned l.next (l.next x) xs c.4)
        (omega arith) in
    (
      alloc_loop_lem k system l (λ e. c.1 (omega (arith, e, c.0)))
          ∙ ap (λ (q : ℕ). ok q (taken l q)) c.0,
      rw (fields.0) c.4,
      fields.1,
    )
