-- ===== src/Word/Pair.antt =====
-- 64-bit words of two 32-bit halves (atomsnap.c): the control block [RefCount | Handle], the inner
-- state [Counter | Flags] and the top of an arena's stack [Depth | Handle].
use atomsnap.Common.{ℕ, ◌+◌, ◌-◌, ◌*◌, ◌/◌, ◌%◌, ◌^◌, ◌≡◌, ◌<◌, Bool, bit_or, arith, ◌==◌}
use atomsnap.Common.Bits.{bit_or-shift, bit_or-one, bit_or_two}

abbrev pub u32 : ℕ → ℕ
u32 n = n % 2 ^ 32

abbrev pub u64 : ℕ → ℕ
u64 n = n % 2 ^ 64

abbrev pub handle_null : ℕ
handle_null = 0xFFFF_FFFF

abbrev pub stack_depth_inc : ℕ
stack_depth_inc = 2 ^ 32

abbrev pub ref_count_inc : ℕ
ref_count_inc = 2 ^ 32

abbrev pub inner_cnt_inc : ℕ
inner_cnt_inc = 2 ^ 32

-- 1u << 0 and 1u << 1
abbrev pub inner_f_detached : ℕ
inner_f_detached = 1

abbrev pub inner_f_finalized : ℕ
inner_f_finalized = 2

-- `(uint32_t)(s >> INNER_CNT_SHIFT)`
abbrev pub inner_cnt : ℕ → ℕ
inner_cnt s = u32 (s / 2 ^ 32)

-- `s & INNER_FLAGS_MASK`, a mask of 32 ones
abbrev pub inner_flags : ℕ → ℕ
inner_flags s = s % 2 ^ 32

-- `flags & INNER_F_DETACHED` and `(uint32_t)old & INNER_F_FINALIZED`, as tests
abbrev pub has_detached : ℕ → Bool
has_detached flags = flags % 2 == 1

abbrev pub has_finalized : ℕ → Bool
has_finalized flags = flags / 2 % 2 == 1

-- `val & HANDLE_MASK_64` and `top & HANDLE_MASK_32`
abbrev pub handle_of : ℕ → ℕ
handle_of v = v % 2 ^ 32

-- `(v & REF_COUNT_MASK) >> REF_COUNT_SHIFT` of a 64-bit value
abbrev pub refs_of : ℕ → ℕ
refs_of v = u32 (v / 2 ^ 32)

-- `(top & STACK_DEPTH_MASK) >> STACK_DEPTH_SHIFT`
abbrev pub depth_of : ℕ → ℕ
depth_of v = u32 (v / 2 ^ 32)

-- What `detach_and_adjust` writes for the state `cur`: `old_refs` taken off the counter, modulo
-- 2^32, and DETACHED set.
unfoldable pub detached_state : (cur old_refs : ℕ) → ℕ
detached_state cur old_refs =
    bit_or (u32 (inner_cnt cur + 2 ^ 32 - old_refs) * 2 ^ 32)
      (bit_or (inner_flags cur) inner_f_detached)

-- What `atomic_fetch_or` of FINALIZED leaves.
unfoldable pub finalized_state : ℕ → ℕ
finalized_state s = bit_or s inner_f_finalized

-- The new top of `free_slot`: one more in the depth, and the handle that is pushed.
unfoldable pub pushed_top : (old_top my_handle : ℕ) → ℕ
pushed_top old_top my_handle = bit_or (u64 (old_top / 2 ^ 32 * 2 ^ 32 + stack_depth_inc)) my_handle

-- The counter and the flags after a detach, which share no bit.
pub detached_state_lem :
    (cur refs : ℕ)
    → detached_state cur refs
      ≡ u32 (inner_cnt cur + 2 ^ 32 - refs) * 2 ^ 32 + (inner_flags cur - cur % 2 + 1)
unfolding detached_state
detached_state_lem cur refs = omega (
  arith,
  bit_or-one (inner_flags cur),
  bit_or-shift 32 (u32 (inner_cnt cur + 2 ^ 32 - refs)) (bit_or (inner_flags cur) 1)
      (omega (arith, bit_or-one (inner_flags cur))),
)

pub finalized_state_lem : (s : ℕ) → finalized_state s ≡ s - s % 4 + s % 2 + 2
unfolding finalized_state
finalized_state_lem s = bit_or_two s

pub pushed_top_lem :
    (top h : ℕ) → h < 2 ^ 32 → pushed_top top h ≡ u32 (top / 2 ^ 32 + 1) * 2 ^ 32 + h
unfolding pushed_top
pushed_top_lem top h small =
    let e : u64 (top / 2 ^ 32 * 2 ^ 32 + stack_depth_inc) ≡ u32 (top / 2 ^ 32 + 1) * 2 ^ 32 =
      omega arith in
    rw e (bit_or-shift 32 (u32 (top / 2 ^ 32 + 1)) h small)
