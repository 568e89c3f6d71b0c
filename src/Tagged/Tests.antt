-- ===== src/Tagged/Tests.antt =====
-- The free list with one block and with none.
use atomsnap.Common.{◌+◌, ◌%◌, ◌≡◌, refl, none, some, [], ◌∷◌, arith}
use atomsnap.Common.Outcome.{ok}
use atomsnap.Tagged.Blocks.{TaggedFreeList, ptr_from, tag_from, alloc, free}
use atomsnap.Tagged.Order.{Linked, freed, taken, free-Linked, alloc-Linked}

-- The block 64 is on the list, and the tag is 15.
abbrev one_block : TaggedFreeList
one_block = record { head = 79; block_size = 32; align = 16; next = λ _. 0 }

one_block_on : Linked one_block.next (ptr_from one_block.head) (64 ∷ [])
one_block_on = (refl, omega arith, refl, refl, refl)

free-Linked_example :
    (free 2 (some 128) one_block ≡ ok tt (freed one_block 128))
    × Linked (freed one_block 128).next (ptr_from (freed one_block 128).head) (128 ∷ 64 ∷ [])
    × (tag_from (freed one_block 128).head ≡ (tag_from one_block.head + 1) % 16)
free-Linked_example =
    free-Linked 2 128 one_block (64 ∷ []) (omega arith) refl (ground arith) one_block_on

alloc-Linked_example :
    (alloc 2 (λ _ _. none) one_block ≡ ok 64 (taken one_block 64))
    × Linked (taken one_block 64).next (ptr_from (taken one_block 64).head) []
    × (tag_from (taken one_block 64).head ≡ (tag_from one_block.head + 1) % 16)
alloc-Linked_example = alloc-Linked 2 (λ _ _. none) one_block 64 [] one_block_on
