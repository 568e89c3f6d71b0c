-- ===== src/Bench/Renew/Code.antt =====
-- microbench/bench1/exchange/atomsnap_example.cpp: the state of the benchmark, and what the accesses to
-- objects do. An `int64_t` is its value modulo 2^64.
use atomsnap.Common.{ℕ, ◌+◌, ◌-◌, ◌%◌, ◌^◌, Bool, Option, none, some, ◌==◌, ltb, if◌then◌else◌}
use atomsnap.Protocol.Machine

-- `Data`
pub record Data : Type 0 where
  pub value1 : ℕ
  pub value2 : ℕ

-- Where a thread stands in `writer` or `reader`.
pub data User : Type 0 where
  -- between two rounds, and after the acquire
  w_top : User
  w_got : User
  -- with `values[0]`, and with `values[1]` too
  w_one : (value0 : ℕ) → User
  w_two : (value0 value1 : ℕ) → User
  -- after `atomsnap_make_version`, and after `atomsnap_set_object`
  w_made : (value0 value1 : ℕ) → User
  w_set : User
  -- in `atomsnap_exchange_version` or after it
  w_swap : User
  -- between two rounds, after the acquire, after the first load, and after the check
  r_top : User
  r_got : User
  r_one : (value1 : ℕ) → User
  r_done : User
  -- `main`, in `join`
  joining : User
  -- after `exit(1)`
  exited : User
  -- after a load through NULL or a pointer to freed memory, or a second `delete`
  crashed : User

-- The library, the object of each version, the heap by address, and the threads.
pub record System : Type 0 where
  pub lib : Machine.System
  pub object : ℕ → Option ℕ
  pub alive : ℕ → Bool
  pub heap : ℕ → Data
  pub user : ℕ → User

-- An `int64_t` that is stored in an `int`, as the `int64_t` that it is read back as.
abbrev pub narrowed : ℕ → ℕ
narrowed x = if ltb (x % 2 ^ 32) (2 ^ 31) then x % 2 ^ 32 else x % 2 ^ 32 + (2 ^ 64 - 2 ^ 32)

-- `atomsnap_get_object` of the version that the thread holds, if that can be read.
abbrev pub readable : (ℕ → Bool) → Option ℕ → Option ℕ
readable alive none = none
readable alive (some a) = if alive a then some a else none

abbrev pub object_of : System → Option ℕ → Option ℕ
object_of s none = none
object_of s (some ver) = readable s.alive (s.object ver)

-- `values[0] = old_data->value1 + 1` and `values[1] = old_data->value2 + 1`
abbrev pub value_one : (ℕ → Data) → Option ℕ → User
value_one heap none = crashed
value_one heap (some b) = w_one (narrowed ((heap b).value1 + 1))

abbrev pub value_two : (ℕ → Data) → (value0 : ℕ) → Option ℕ → User
value_two heap v none = crashed
value_two heap v (some b) = w_two v (narrowed ((heap b).value2 + 1))

-- The reader's loads and its check.
abbrev pub read_one : (ℕ → Data) → Option ℕ → User
read_one heap none = crashed
read_one heap (some b) = r_one (heap b).value1

abbrev pub read_two : (ℕ → Data) → (value1 : ℕ) → Option ℕ → User
read_two heap v none = crashed
read_two heap v (some b) = if v == (heap b).value2 then r_done else exited

-- `delete` in `atomsnap_free_impl`
abbrev pub delete_once : (ℕ → Bool) → Option ℕ → User → User
delete_once alive none u = u
delete_once alive (some a) u = if alive a then u else crashed
