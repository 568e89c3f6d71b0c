-- ===== src/Bench/Counted/Machine.antt =====
-- microbench/bench1/cmp_exchange/shared_ptr_example.cpp: writers that publish an object one greater than the
-- one they loaded, by a compare-exchange of shared pointers, and readers that check the object they loaded.
-- One access to memory that threads share is one step; the values stay below 2^63. Shared pointers have
-- their documented behaviour: loads and compare-exchanges of `global_ptr` are atomic, and an object that a
-- shared pointer refers to is not deleted, so that `new` gives no address of one.
use atomsnap.Common.{ℕ, ◌+◌, ◌<◌, ◌≡◌, ◌≢◌, ◌⊎◌, Bool, Option, none, some, ◌==◌, ltb, if◌then◌else◌}
use atomsnap.Common.Family.{update}

-- `Data`
pub record Data : Type 0 where
  pub value1 : ℕ
  pub value2 : ℕ

-- The object of `global_ptr`, and the objects by address.
pub record Mem : Type 0 where
  pub global_ptr : ℕ
  pub heap : ℕ → Data

pub data Pc : Type 0 where
  -- a writer before its first `new Data`, and between two rounds
  w_start : Pc
  w_top : Pc
  -- after the load of `global_ptr`, and after each of the two stores
  w_got : Pc
  w_half : Pc
  w_full : Pc
  -- after a compare-exchange that succeeded
  w_won : Pc
  -- a reader between two rounds
  r_top : Pc
  -- after the load of `global_ptr`, after that of `value1`, after the first check, and after the second
  r_got : Pc
  r_one : (value1 : ℕ) → Pc
  r_two : Pc
  r_three : Pc
  -- after `exit(1)`
  exited : Pc
  -- after a use of a null pointer
  crashed : Pc

-- `loaded` is `expected` of a writer and `cur` of a reader; `ops` is that of a writer.
pub record Thread : Type 0 where
  pub new_data : Option ℕ
  pub loaded : Option ℕ
  pub prev_value : ℕ
  pub ops : ℕ
  pub pc : Pc

pub record System : Type 0 where
  pub mem : Mem
  pub thr : ℕ → Thread

-- Before a writer takes a new object: `ops++` if it has published one.
abbrev pub published_ops : Pc → (ops : ℕ) → ℕ
published_ops w_won ops = ops + 1
published_ops _ ops = ops

-- The loads and checks of a reader.
abbrev pub first_load : (ℕ → Data) → (loaded : Option ℕ) → Pc
first_load heap none = crashed
first_load heap (some b) = r_one (heap b).value1

abbrev pub first_check : (ℕ → Data) → (value1 : ℕ) → (loaded : Option ℕ) → Pc
first_check heap v1 none = crashed
first_check heap v1 (some b) = if v1 == (heap b).value2 then r_two else exited

abbrev pub second_check : (ℕ → Data) → (prev_value : ℕ) → (loaded : Option ℕ) → Pc
second_check heap prev none = crashed
second_check heap prev (some b) = if ltb (heap b).value1 prev then exited else r_three

-- A step of a thread; a null pointer that is used leaves it `crashed`.
pub data Step (n : ℕ) (s : System) : System → Type 0 where
  -- `new Data`, and the shared pointer to it; the loaded object is given up
  new_object :
      (i a : ℕ) (raw : Data)
      → i < n
      → ((s.thr i).pc ≡ w_start) ⊎ ((s.thr i).pc ≡ w_won)
      → a ≢ s.mem.global_ptr
      → ((j : ℕ) → (s.thr j).new_data ≢ some a)
      → ((j : ℕ) → (s.thr j).loaded ≢ some a)
      → Step n s (record {
        mem = record s.mem { heap = update s.mem.heap a raw };
        thr = update s.thr i (record (s.thr i) {
          new_data = some a;
          loaded = none;
          ops = published_ops (s.thr i).pc (s.thr i).ops;
          pc = w_top;
        });
      })
  -- `std::atomic_load_explicit(&global_ptr, …)`
  load :
      (i : ℕ) (p : Pc)
      → i < n
      → (((s.thr i).pc ≡ w_top) × (p ≡ w_got)) ⊎ (((s.thr i).pc ≡ r_top) × (p ≡ r_got))
      → Step n s (record s {
        thr = update s.thr i (record (s.thr i) { loaded = some s.mem.global_ptr; pc = p });
      })
  write1 :
      (i a b : ℕ)
      → i < n
      → (s.thr i).pc ≡ w_got
      → (s.thr i).new_data ≡ some a
      → (s.thr i).loaded ≡ some b
      → Step n s (record {
        mem = record s.mem {
          heap = update s.mem.heap a (record (s.mem.heap a) { value1 = (s.mem.heap b).value1 + 1 });
        };
        thr = update s.thr i (record (s.thr i) { pc = w_half });
      })
  write2 :
      (i a b : ℕ)
      → i < n
      → (s.thr i).pc ≡ w_half
      → (s.thr i).new_data ≡ some a
      → (s.thr i).loaded ≡ some b
      → Step n s (record {
        mem = record s.mem {
          heap = update s.mem.heap a (record (s.mem.heap a) { value2 = (s.mem.heap b).value2 + 1 });
        };
        thr = update s.thr i (record (s.thr i) { pc = w_full });
      })
  -- a store through a null pointer
  write_null :
      (i : ℕ)
      → i < n
      → ((s.thr i).pc ≡ w_got) ⊎ ((s.thr i).pc ≡ w_half)
      → ((s.thr i).new_data ≡ none) ⊎ ((s.thr i).loaded ≡ none)
      → Step n s (record s { thr = update s.thr i (record (s.thr i) { pc = crashed }) })
  -- `std::atomic_compare_exchange_strong_explicit(&global_ptr, &expected, new_data, …)`
  swap :
      (i a : ℕ)
      → i < n
      → (s.thr i).pc ≡ w_full
      → (s.thr i).new_data ≡ some a
      → (s.thr i).loaded ≡ some s.mem.global_ptr
      → Step n s (record {
        mem = record s.mem { global_ptr = a };
        thr = update s.thr i (record (s.thr i) { pc = w_won });
      })
  swap_fails :
      (i : ℕ)
      → i < n
      → (s.thr i).pc ≡ w_full
      → (s.thr i).loaded ≢ some s.mem.global_ptr
      → Step n s
          (record s { thr = update s.thr i (record (s.thr i) { loaded = none; pc = w_top }) })
  read1 :
      (i : ℕ)
      → i < n
      → (s.thr i).pc ≡ r_got
      → Step n s (record s {
        thr = update s.thr i (record (s.thr i) { pc = first_load s.mem.heap (s.thr i).loaded });
      })
  read2 :
      (i v1 : ℕ)
      → i < n
      → (s.thr i).pc ≡ r_one v1
      → Step n s (record s {
        thr = update s.thr i (record (s.thr i) { pc = first_check s.mem.heap v1 (s.thr i).loaded });
      })
  read3 :
      (i : ℕ)
      → i < n
      → (s.thr i).pc ≡ r_two
      → Step n s (record s {
        thr = update s.thr i (record (s.thr i) {
          pc = second_check s.mem.heap (s.thr i).prev_value (s.thr i).loaded;
        });
      })
  -- `prev_value = cur->value1`, and the end of the round
  read4 :
      (i b : ℕ)
      → i < n
      → (s.thr i).pc ≡ r_three
      → (s.thr i).loaded ≡ some b
      → Step n s (record s {
        thr =
            update s.thr i
              (record (s.thr i) { loaded = none; prev_value = (s.mem.heap b).value1; pc = r_top });
      })

abbrev pub init : (is_writer : ℕ → Bool) (a : ℕ) → System
init is_writer a = record {
  mem = record { global_ptr = a; heap = λ _. record { value1 = 0; value2 = 0 } };
  thr = λ i. record {
    new_data = none;
    loaded = none;
    prev_value = 0;
    ops = 0;
    pc = if is_writer i then w_start else r_top;
  };
}

pub data Reach (n : ℕ) (is_writer : ℕ → Bool) (a : ℕ) : System → Type 0 where
  start : Reach n is_writer a (init is_writer a)
  later : {s t : System} → Reach n is_writer a s → Step n s t → Reach n is_writer a t
