-- ===== src/Bench/Tests.antt =====
-- A reader that checks while a writer writes, and blocks of the allocator.
use atomsnap.Common.Outcome.{Outcome, ok, stopped, fault}
use atomsnap.Common.Family.{update}
use atomsnap.Bench.Blocks.{
  GlobalArenaPool, data_of, allocate, allocate_in, get_tid, new_tid, take_local, take_stolen,
  deallocate,
}
use atomsnap.Bench.Places
use atomsnap.Bench.Places.{View, elsewhere, held, shared_of}
use atomsnap.Bench.Given.{Allocates, allocate_lem, deallocate_lem}
use atomsnap.Common.{ℕ_discrete, some, none, [], ◌∷◌, ℕ, ◌≡◌, ◌≢◌, refl, arith, Option}
use atomsnap.Bench.Spin.{
  exited, lock_writer, load_value1, store_value1, lock_reader, copy_value1, copy_value2,
  unlock_reader, System, pick, Data, Thread, Move, Reach, start, later,
}
use atomsnap.Bench.Duel.{never_exits}

record Run : Type 0 where
  last : System
  reach : Reach last

abbrev move : (r : Run) (i : ℕ) {m : Data} {t : Thread} → Move i r.last.mem (r.last.thr i) m t → Run
move r i mv = record { last = _; reach = later r.reach (pick i mv) }

abbrev boot : Run
boot = record { last = _; reach = start }

-- Thread 0 reads, and thread 1 writes its first value before thread 0 checks.
abbrev copied : Run
unfolding ℕ_discrete
copied =
    move
      (move (move (move boot 0 (lock_reader refl refl)) 0 (copy_value1 refl)) 0
        (copy_value2 0 refl))
      0 (unlock_reader 0 0 refl)

abbrev wrote : Run
unfolding ℕ_discrete copied
wrote =
    move (move (move copied 1 (lock_writer refl refl)) 1 (load_value1 refl)) 1 (store_value1 0 refl)

never_exits_example : (wrote.last.thr 0).pc ≢ exited
never_exits_example = never_exits wrote.reach 0

-- Arena 0 has the block 300 on its shared list, and the program holds the block 200 of arena 0.
abbrev arenas : GlobalArenaPool
arenas = record {
  next = λ _. none;
  owner_tid = λ _. 0;
  shared_head = update (λ _. none) 0 (some 300);
  local_head = λ _. none;
  tid_counter = 1;
  my_tid = λ _. some 0;
}

abbrev view : View
view = record {
  place = update (update (λ _. elsewhere) 200 held) 300 (shared_of 0);
  locals = λ _. [];
  shareds = update (λ _. []) 0 (300 ∷ []);
}

arenas-Inv : Places.Inv arenas view
arenas-Inv = record {
  local_at = λ t. refl;
  shared_at = λ t. ground arith;
  in_local = λ t x. ground arith;
  in_shared = λ t x. ground arith;
}

allocate_lem_example : Allocates view (allocate 1 0 (some 400) arenas)
unfolding ℕ_discrete
allocate_lem_example = allocate_lem arenas view 1 0 400 arenas-Inv (omega arith) (omega arith) refl

deallocate_lem_example :
    (g' : GlobalArenaPool) × (deallocate 3 (some (data_of 200)) 1 arenas ≡ ok tt g')
    × Places.Inv g' (record view {
      place = update view.place 200 (shared_of 0);
      shareds = update view.shareds 0 (200 ∷ view.shareds 0);
    })
unfolding ℕ_discrete
deallocate_lem_example =
    deallocate_lem arenas view 3 1 200 arenas-Inv (omega arith) (omega arith) refl

abbrev result : Outcome GlobalArenaPool ℕ → Option ℕ
result (ok p g) = some p
result stopped = none
result fault = none

-- The block on the shared list is given before new memory.
stolen_run : result (allocate 1 0 (some 400) arenas) ≡ some (data_of 300)
unfolding allocate allocate_in get_tid new_tid take_local take_stolen ℕ_discrete
stolen_run = refl
