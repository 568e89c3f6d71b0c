-- ===== src/Pool/Stack/Push.antt =====
-- `free_slot` puts a slot on the shared stack of its arena.
use atomsnap.Common.{
  ℕ, zero, suc, ◌<◌, ◌≡◌, ◌≢◌, refl, true, false, some, List, ◌∷◌, ap, sym, ◌∙◌, arith, ltb,
}
use atomsnap.Common.Family.{update, update_self}
use atomsnap.Common.Family.{update-update}
use atomsnap.Common.Outcome.{ok, Cmd, and_then, ◌>>=◌, ◌>>◌}
use mathlib.Core.Path.{fun_ext}
use atomsnap.Word.Pair.{handle_of, pushed_top, pushed_top_lem}
use atomsnap.Word.Handle.{
  max_arenas, slots_per_arena, arena_idx, construct_handle, construct_handle_fields,
}
use atomsnap.Pool.Memory.{Version, Arena, Pool, load_arena, store_arena, load_slot, store_slot}
use atomsnap.Pool.Slots.{push_loop, free_slot}
use atomsnap.Pool.Stack.Defs.{has, IsStack, Chain-push}
use atomsnap.Pool.Stack.Bound.{length-Chain}

-- An arena after slot `i` is linked to the top, and after it is pushed.
unfoldable pub linked_arena : Arena → (i : ℕ) → Arena
linked_arena arena i = record arena {
  slots = update arena.slots i (record (arena.slots i) { link = handle_of arena.top_handle });
}

unfoldable pub pushed_arena : Arena → (i id : ℕ) → Arena
unfolding linked_arena
pushed_arena arena i id = record (linked_arena arena i) {
  top_handle = pushed_top arena.top_handle (construct_handle id i);
}

abbrev with_arena : Pool → (a : ℕ) → Arena → Pool
with_arena p a arena = record p { arenas = update p.arenas a arena }

-- The pool after slot `i` of the arena at `a` is pushed.
abbrev pub pushed : Pool → (a i id : ℕ) → Pool
pushed p a i id = record p { arenas = update p.arenas a (pushed_arena (p.arenas a) i id) }

slots-linked :
    (slots : ℕ → Version) (i h : ℕ)
    → update
        (update slots i (record (slots i) { link = h }))
        i
        (record (update slots i (record (slots i) { link = h }) i) { link = h })
      ≡ update slots i (record (slots i) { link = h })
slots-linked slots i h = fun_ext λ j. ground arith

linked-linked :
    (arena : Arena) (i id : ℕ) → pushed_arena (linked_arena arena i) i id ≡ pushed_arena arena i id
unfolding pushed_arena
linked-linked arena i id =
    ap
      (λ (f : ℕ → Version). record {
        top_handle = pushed_top arena.top_handle (construct_handle id i);
        slots = f;
      })
      (slots-linked arena.slots i (handle_of arena.top_handle))

pushed-linked :
    (p : Pool) (a i id : ℕ)
    → pushed (with_arena p a (linked_arena (p.arenas a) i)) a i id ≡ pushed p a i id
pushed-linked p a i id =
    ap (λ (f : ℕ → Arena). record p { arenas = f })
      (fun_ext λ b. ground (arith, linked-linked (p.arenas a) i id))

-- One round of the loop, up to its compare-exchange.
link_round :
    {B : Type 0} (p : Pool) (a i : ℕ) (next : Arena → Cmd Pool B)
    → i < slots_per_arena
    → and_then (load_slot (a, i) p) (λ version.
      store_slot (a, i) (record version { link = handle_of (p.arenas a).top_handle })
      >> (load_arena a >>= next))
      ≡ next (linked_arena (p.arenas a) i) (with_arena p a (linked_arena (p.arenas a) i))
unfolding load_slot store_slot linked_arena
link_round p a i next fits =
    let found : ltb i slots_per_arena ≡ true = ground arith in
    rw (found, found)
      (ap (λ (t : Arena). next t (with_arena p a (linked_arena (p.arenas a) i)))
        (update_self p.arenas a (linked_arena (p.arenas a) i)))

-- Failures of the weak compare-exchange change nothing that the loop leaves behind.
push_loop_lem :
    (n a i id : ℕ) (p : Pool)
    → i < slots_per_arena
    → push_loop n a (construct_handle id i) (p.arenas a).top_handle (a, i) p
      ≡ ok tt (pushed p a i id)
unfolding push_loop pushed_arena
push_loop_lem zero a i id p fits =
    link_round p a i
      (λ arena.
        store_arena a (record arena {
          top_handle = pushed_top (p.arenas a).top_handle (construct_handle id i);
        }))
      fits
    ∙ ap (λ (f : ℕ → Arena). ok tt (record p { arenas = f }))
        (update-update p.arenas a (linked_arena (p.arenas a) i) _)
push_loop_lem (suc n) a i id p fits =
    let next = with_arena p a (linked_arena (p.arenas a) i) in
    let reloaded : (next.arenas a).top_handle ≡ (linked_arena (p.arenas a) i).top_handle =
      ap (λ (t : Arena). t.top_handle) (update_self p.arenas a (linked_arena (p.arenas a) i)) in
    link_round p a i (λ arena. push_loop n a (construct_handle id i) arena.top_handle (a, i)) fits
    ∙ ap (λ (t : ℕ). push_loop n a (construct_handle id i) t (a, i) next) (sym reloaded)
    ∙ push_loop_lem n a i id next fits
    ∙ ap (ok tt) (pushed-linked p a i id)

pub pushed_arena-IsStack :
    (arena : Arena) (i id : ℕ) (xs : List ℕ)
    → id < max_arenas
    → 0 < i
    → i < slots_per_arena
    → has i xs ≡ false
    → IsStack id arena xs
    → IsStack id (pushed_arena arena i id) (i ∷ xs)
unfolding pushed_arena linked_arena
pushed_arena-IsStack arena i id xs small pos fits out stack =
    let (at, slot, word, ne) = construct_handle_fields id i small fits in
    let top = pushed_top_lem arena.top_handle (construct_handle id i) word in
    let named : handle_of (pushed_top arena.top_handle (construct_handle id i))
        ≡ construct_handle id i =
      omega (arith, top) in
    record {
      chain = rw named (
          Chain-push id arena.slots (handle_of arena.top_handle) xs i _ refl pos fits out
            stack.chain);
      depth = omega (
        arith,
        top,
        stack.depth,
        length-Chain id arena.slots (handle_of arena.top_handle) xs stack.chain,
      );
    }

pub free_slot_lem :
    (n a i id : ℕ) (p : Pool)
    → id < max_arenas
    → p.g_arena_table id ≡ some a
    → i < slots_per_arena
    → ((p.arenas a).slots i).link ≡ construct_handle id i
    → free_slot n (a, i) p ≡ ok tt (pushed p a i id)
unfolding free_slot
free_slot_lem n a i id p small at fits own =
    let found : ltb i slots_per_arena ≡ true = ground arith in
    let named : arena_idx (construct_handle id i) ≡ id =
      (construct_handle_fields id i small fits).0 in
    rw (found, own, named, at) (push_loop_lem n a i id p fits)

-- A slot that is not on the shared stack of its arena goes on top of it, whatever the number of
-- failures of the weak compare-exchange: the depth counts it, and nothing else is changed.
pub free_slot-IsStack :
    (n a i id : ℕ) (p : Pool) (xs : List ℕ)
    → id < max_arenas
    → p.g_arena_table id ≡ some a
    → 0 < i
    → i < slots_per_arena
    → ((p.arenas a).slots i).link ≡ construct_handle id i
    → has i xs ≡ false
    → IsStack id (p.arenas a) xs
    → (free_slot n (a, i) p ≡ ok tt (pushed p a i id))
      × IsStack id ((pushed p a i id).arenas a) (i ∷ xs)
      × ((b : ℕ) → b ≢ a → (pushed p a i id).arenas b ≡ p.arenas b)
free_slot-IsStack n a i id p xs small at pos fits own out stack = (
  free_slot_lem n a i id p small at fits own,
  rw (update_self p.arenas a (pushed_arena (p.arenas a) i id))
      (pushed_arena-IsStack (p.arenas a) i id xs small pos fits out stack),
  λ b ne. ground arith,
)
