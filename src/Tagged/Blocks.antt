-- ===== src/Tagged/Blocks.antt =====
-- `TaggedFreeList` of microbench/bench2/lf_pool.hpp: blocks of memory linked through their first word,
-- from a head of 64 bits whose low 4 bits are a tag.
use Prim.Native.Nat.{bit_and}
use atomsnap.Common.{
  ℕ, zero, suc, ◌+◌, ◌-◌, ◌%◌, ◌^◌, Option, none, some, ◌==◌, ltb, if◌then◌else◌, bit_or,
}
use atomsnap.Common.Family.{update}
use atomsnap.Common.Outcome.{ok, stopped, Cmd, pure, get, ◌>>=◌}
use atomsnap.Word.Pair.{u64}

-- `next` is the first word of each block, by address: `Node::next`.
pub record TaggedFreeList : Type 0 where
  pub head : ℕ
  pub block_size : ℕ
  pub align : ℕ
  pub next : ℕ → ℕ

unfoldable pub pack : (p tag4 : ℕ) → ℕ
pack p tag4 = bit_or p (tag4 % 16)

abbrev pub ptr_from : ℕ → ℕ
ptr_from v = v - v % 16

abbrev pub tag_from : ℕ → ℕ
tag_from v = v % 16

-- `~(a - 1)` in 64 bits is 2^64 - a.
unfoldable pub round_up : (x a : ℕ) → ℕ
round_up x a = bit_and (u64 (x + a + 2 ^ 64 - 1)) (2 ^ 64 - a)

-- The alignment that the constructor keeps: at least 16, and a power of two.
unfoldable pub kept_align : ℕ → ℕ
kept_align align =
    let wide = if ltb align 16 then 16 else align in
    if bit_and wide (wide - 1) == 0 then wide else 16

-- The constructor; a node has 8 bytes.
unfoldable pub construct : (next : ℕ → ℕ) → (block_size align : ℕ) → TaggedFreeList
unfolding kept_align
construct next block_size align = record {
  head = 0;
  block_size = if ltb block_size 8 then 8 else block_size;
  align = kept_align align;
  next = next;
}

-- `aligned_alloc` gives what `system` does for an alignment and a size; NULL throws. The block is
-- cleared.
unfoldable pub aligned_alloc_block : (system : ℕ → ℕ → Option ℕ) → Cmd TaggedFreeList ℕ
unfolding round_up
aligned_alloc_block system l = elim (system l.align (round_up l.block_size l.align)) [
  | none ↦ stopped
  | some p ↦ ok p (record l { next = update l.next p 0 })
]

-- The loop of `alloc` from the value `head` on; the weak compare-exchange fails `spurious` times.
unfoldable pub alloc_loop :
    (spurious : ℕ) (system : ℕ → ℕ → Option ℕ) → (head : ℕ) → Cmd TaggedFreeList ℕ
alloc_loop zero system head = if ptr_from head == 0 then aligned_alloc_block system else (λ l.
    ok (ptr_from head)
      (record l { head = pack (l.next (ptr_from head)) ((tag_from head + 1) % 16) }))
alloc_loop (suc n) system head =
    if ptr_from head == 0
    then aligned_alloc_block system
    else (do l ← get; alloc_loop n system l.head)

unfoldable pub alloc : (spurious : ℕ) (system : ℕ → ℕ → Option ℕ) → Cmd TaggedFreeList ℕ
alloc spurious system = do l ← get; alloc_loop spurious system l.head

-- The loop of `free` from the value `head` on.
unfoldable pub free_loop : (spurious n head : ℕ) → Cmd TaggedFreeList (Unit {0})
free_loop zero n head l =
    ok tt (record l {
      next = update l.next n (ptr_from head);
      head = pack n ((tag_from head + 1) % 16);
    })
free_loop (suc spurious) n head l =
    free_loop spurious n l.head (record l { next = update l.next n (ptr_from head) })

-- `free`; NULL is `none`.
unfoldable pub free : (spurious : ℕ) → Option ℕ → Cmd TaggedFreeList (Unit {0})
free spurious none = pure tt
free spurious (some n) = do l ← get; free_loop spurious n l.head
