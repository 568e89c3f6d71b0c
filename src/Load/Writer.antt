-- ===== src/Load/Writer.antt =====
-- `UrcuBackend::writer_loop` of microbench/bench2/bench_all.cpp, for one writer. The blocks that the pool
-- gives and what the clock shows are its input; its calls of the RCU library and of the pool's `free` are
-- logged.
use atomsnap.Common.{
  ℕ, ◌+◌, ◌-◌, ◌/◌, ◌%◌, ◌^◌, Option, none, some, List, [], ◌∷◌, ◌++◌, length, ◌==◌, ltb, leb,
  if◌then◌else◌,
}
use atomsnap.Common.Family.{update}
use atomsnap.Word.Pair.{u64}

-- `UrcuObj` with its payload; `pool` and `pending` are the same in all.
pub record UrcuObj : Type 0 where
  pub v1 : ℕ
  pub v2 : ℕ
  pub payload : ℕ → ℕ

-- What becomes of a block that was replaced.
pub data Event : Type 0 where
  replaced : ℕ → Event
  call_rcu_memb : ℕ → Event
  synchronize_rcu_memb : Event
  pool_free : ℕ → Event

pub data Reclaim : Type 0 where
  async : Reclaim
  sync_batch : Reclaim

-- What the writer uses of `Config`.
pub record Plan : Type 0 where
  pub reclaim : Reclaim
  pub batch : ℕ
  pub shards : ℕ
  pub payload_bytes : ℕ
  pub updates_per_sec : ℕ

-- `rl` is the writer's own list; the counters and `gptrs` are those of the backend.
pub record Writer : Type 0 where
  pub gptrs : ℕ → Option ℕ
  pub objs : ℕ → UrcuObj
  pub pending : ℕ
  pub freed : ℕ
  pub wops : ℕ
  pub rl : List ℕ
  pub seq : ℕ
  pub shard : ℕ
  pub next_tick : ℕ
  pub log : List Event

-- The loop over the list that frees its blocks.
unfoldable pub free_all : List ℕ → Writer → Writer
free_all [] w = w
free_all (x ∷ xs) w =
    free_all xs (record w { freed = u64 (w.freed + 1); log = w.log ++ (pool_free x ∷ []) })

-- `synchronize_rcu_memb`, that loop, and `rl.v.clear()`.
unfoldable pub flush : Writer → Writer
flush w =
    let freed = free_all w.rl (record w { log = w.log ++ (synchronize_rcu_memb ∷ []) }) in
    record freed { rl = [] }

unfoldable pub push_back : ℕ → Writer → Writer
push_back old w = record w { rl = w.rl ++ (old ∷ []) }

-- What the writer does with the pointer that it replaced.
unfoldable pub retire : Reclaim → (batch : ℕ) → Option ℕ → Writer → Writer
retire reclaim batch none w = w
retire async batch (some old) w = record w {
  pending = u64 (w.pending + 1);
  log = w.log ++ (call_rcu_memb old ∷ []);
}
retire sync_batch batch (some old) w =
    let longer = push_back old w in if leb batch (length longer.rl) then flush longer else longer

-- The two bytes of the payload that are written; the others stay.
unfoldable pub fill : (payload_bytes seq : ℕ) → (ℕ → ℕ) → ℕ → ℕ
fill payload_bytes seq payload =
    if payload_bytes == 0
    then payload
    else update (update payload 0 (seq % 2 ^ 8)) (payload_bytes - 1) (seq / 2 ^ 8 % 2 ^ 8)

-- The exchange of the shard's pointer, which was `old`.
unfoldable pub swap : (old : Option ℕ) (mem : ℕ) → Writer → Writer
swap none mem w = record w { gptrs = update w.gptrs w.shard (some mem) }
swap (some old) mem w = record w {
  gptrs = update w.gptrs w.shard (some mem);
  log = w.log ++ (replaced old ∷ []);
}

-- The body of the loop after the pacing, with the block that the pool gave.
unfoldable pub update_shard : Plan → (mem : ℕ) → Writer → Writer
update_shard plan mem w =
    let seq = u64 (w.seq + 1) in
    let old = w.gptrs w.shard in
    let filled = record w {
      seq = seq;
      objs = update w.objs mem (record {
        v1 = seq;
        v2 = seq;
        payload = fill plan.payload_bytes seq (w.objs mem).payload;
      });
    } in
    let done = retire plan.reclaim plan.batch old (swap old mem filled) in
    record done {
      shard = if leb plan.shards (done.shard + 1) then 0 else done.shard + 1;
      wops = u64 (done.wops + 1);
    }

-- 10^9 over the rate; 0 for no rate.
unfoldable pub interval : Plan → ℕ
interval plan = if plan.updates_per_sec == 0 then 0 else 1000000000 / plan.updates_per_sec

-- One iteration at the time `now`.
unfoldable pub turn : Plan → (now mem : ℕ) → Writer → Writer
turn plan now mem w =
    if interval plan == 0
    then update_shard plan mem w
    else (if ltb now w.next_tick
        then w
        else update_shard plan mem (record w { next_tick = u64 (w.next_tick + interval plan) }))

-- The iterations until `running` is false.
unfoldable pub turns : Plan → List (ℕ × ℕ) → Writer → Writer
turns plan [] w = w
turns plan ((now, mem) ∷ rest) w = turns plan rest (turn plan now mem w)

-- The rest of the list is flushed, if there is any.
unfoldable pub flush_rest : (rl : List ℕ) → Writer → Writer
flush_rest [] w = w
flush_rest (x ∷ xs) w = flush w

-- After the loop.
unfoldable pub finish : Reclaim → Writer → Writer
finish async w = w
finish sync_batch w = flush_rest w.rl w

-- `writer_loop` of writer `wid` from the time `start` on.
unfoldable pub writer_loop : Plan → (wid start : ℕ) → List (ℕ × ℕ) → Writer → Writer
writer_loop plan wid start inputs w =
    finish plan.reclaim
      (turns plan inputs (record w { seq = 0; shard = wid % plan.shards; next_tick = start }))
