-- ===== src/Bench/Spin.antt =====
-- microbench/bench1/cmp_exchange/spinlock_example.cpp: writers that add one to both values under a
-- spin lock, and readers that copy both under it and check them. One access to memory is one step. The
-- lock is the documented behaviour of `pthread_spin_lock`: it is taken only when no thread has it.
use atomsnap.Common.{ℕ, ◌+◌, ◌≡◌, Option, none, some, ◌==◌, ltb, if◌then◌else◌, not}
use atomsnap.Common.Family.{update}

-- `global_ptr` and `spinlock`.
pub record Data : Type 0 where
  pub value1 : ℕ
  pub value2 : ℕ
  pub spinlock : Option ℕ

pub data Pc : Type 0 where
  -- between two rounds
  outside : Pc
  -- in a writer, from its lock to its unlock
  writing : Pc
  loaded1 : ℕ → Pc
  stored1 : Pc
  loaded2 : ℕ → Pc
  stored2 : Pc
  -- in a reader, from its lock to its unlock, with v1 and v2
  reading : Pc
  read1 : ℕ → Pc
  read2 : (v1 v2 : ℕ) → Pc
  -- a reader before its checks
  checking : (v1 v2 : ℕ) → Pc
  -- after `exit(1)`
  exited : Pc

pub record Thread : Type 0 where
  pub prev_value : ℕ
  pub pc : Pc

-- The two checks, and `prev_value = v1`.
abbrev pub checked : (prev v1 v2 : ℕ) → Thread
checked prev v1 v2 =
    if not (v1 == v2)
    then record { prev_value = prev; pc = exited }
    else (if ltb v1 prev
        then record { prev_value = prev; pc = exited }
        else record { prev_value = v1; pc = outside })

-- A step of thread `i`.
pub data Move (i : ℕ) (m : Data) (t : Thread) : Data → Thread → Type 0 where
  lock_writer :
      t.pc ≡ outside
      → m.spinlock ≡ none
      → Move i m t (record m { spinlock = some i }) (record t { pc = writing })
  load_value1 : t.pc ≡ writing → Move i m t m (record t { pc = loaded1 m.value1 })
  store_value1 :
      (v : ℕ)
      → t.pc ≡ loaded1 v
      → Move i m t (record m { value1 = v + 1 }) (record t { pc = stored1 })
  load_value2 : t.pc ≡ stored1 → Move i m t m (record t { pc = loaded2 m.value2 })
  store_value2 :
      (v : ℕ)
      → t.pc ≡ loaded2 v
      → Move i m t (record m { value2 = v + 1 }) (record t { pc = stored2 })
  unlock_writer :
      t.pc ≡ stored2 → Move i m t (record m { spinlock = none }) (record t { pc = outside })
  lock_reader :
      t.pc ≡ outside
      → m.spinlock ≡ none
      → Move i m t (record m { spinlock = some i }) (record t { pc = reading })
  copy_value1 : t.pc ≡ reading → Move i m t m (record t { pc = read1 m.value1 })
  copy_value2 : (v1 : ℕ) → t.pc ≡ read1 v1 → Move i m t m (record t { pc = read2 v1 m.value2 })
  unlock_reader :
      (v1 v2 : ℕ)
      → t.pc ≡ read2 v1 v2
      → Move i m t (record m { spinlock = none }) (record t { pc = checking v1 v2 })
  check : (v1 v2 : ℕ) → t.pc ≡ checking v1 v2 → Move i m t m (checked t.prev_value v1 v2)

pub record System : Type 0 where
  pub mem : Data
  pub thr : ℕ → Thread

pub data Step (s : System) : System → Type 0 where
  pick :
      (i : ℕ) {m : Data} {t : Thread}
      → Move i s.mem (s.thr i) m t
      → Step s (record { mem = m; thr = update s.thr i t })

abbrev pub init : System
init = record {
  mem = record { value1 = 0; value2 = 0; spinlock = none };
  thr = λ _. record { prev_value = 0; pc = outside };
}

pub data Reach : System → Type 0 where
  start : Reach init
  later : {s t : System} → Reach s → Step s t → Reach t
