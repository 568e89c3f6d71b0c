-- ===== src/Load/Tests.antt =====
-- The second benchmark on small inputs. In the options, a text of one number stands for that number.
use atomsnap.Common.{
  ℕ_discrete, ℕ, ◌≡◌, ◌↔◌, inl, refl, true, some, none, List, [], ◌∷◌, arith, ◌+◌, ◌*◌, ◌/◌, ◌==◌,
}
use atomsnap.Common.Int.{ℤ, pos, negsuc}
use atomsnap.Load.Options.{
  Text, codes, Config, default_config, getv, same, starts_with, drop, after_equals, option,
  parse_arg, parse_loop, parse_args,
}
use atomsnap.Load.Burn.{Doubles}
use atomsnap.Load.Writer.{
  replaced, synchronize_rcu_memb, pool_free, sync_batch, Plan, Writer, writer_loop, turns, turn,
  update_shard, swap, retire, push_back, flush, free_all, finish, flush_rest, interval,
}
use atomsnap.Load.Grace.{Leaves, Inv, writer_loop_grace, no_books}
use atomsnap.Load.Parsed.Known.{AreOptions, settled}
use atomsnap.Load.Parsed.{CanRun, args, parse_args_lem, parse_args-args}

abbrev show_i : ℤ → Text
show_i (pos n) = n ∷ []
show_i (negsuc n) = b'-' ∷ n ∷ []

abbrev atoi : Text → ℤ
atoi [] = pos 0
atoi (n ∷ []) = pos n
atoi (c ∷ n ∷ s) = negsuc n

abbrev show_u : ℕ → Text
show_u n = n ∷ []

abbrev strtoull : Text → ℕ
strtoull [] = 0
strtoull (n ∷ s) = n

abbrev asked : Config
asked = record {
  backend = codes "urcu";
  reclaim = codes "sync-batch";
  readers = pos 4;
  writers = pos 2;
  duration_sec = pos 3;
  shards = pos 8;
  pin = true;
  pin_base = negsuc 0;
  cs_ns = 100;
  payload_bytes = 64;
  updates_per_sec = 5000;
  sync_batch = 16;
  sample_pow2 = 10;
  csv = true;
}

asked-CanRun : CanRun asked
asked-CanRun = (((3, refl)), (1, refl), (2, refl), (7, refl), inl refl, λ e. ground arith)

parse_args-args_example : parse_args atoi strtoull (args show_i show_u asked) ≡ some asked
parse_args-args_example =
    parse_args-args atoi strtoull show_i show_u (λ z fits. ground arith) (λ n lt. refl) asked
      (ground arith) asked-CanRun

abbrev three_shards : Config
three_shards = record default_config { shards = pos b'3' }

parse_args_lem_example :
    (parse_args atoi strtoull (codes "--shards=3" ∷ []) ≡ some three_shards) ↔ (
      AreOptions (codes "--shards=3" ∷ [])
      × (settled atoi strtoull (codes "--shards=3" ∷ []) default_config ≡ three_shards)
      × CanRun three_shards)
parse_args_lem_example = parse_args_lem atoi strtoull (codes "--shards=3" ∷ []) three_shards

-- Neither `--pin` reads the value of `--pin-base-cpu`, nor a key without a value.
pin_base_run :
    parse_args atoi strtoull (codes "--pin-base-cpu=7" ∷ [])
    ≡ some (record default_config { pin_base = pos b'7' })
unfolding parse_args parse_loop parse_arg option getv starts_with drop after_equals same
pin_base_run = refl

no_value_run : parse_args atoi strtoull (codes "--csv" ∷ []) ≡ none
unfolding parse_args parse_loop parse_arg option getv starts_with drop after_equals
no_value_run = refl

-- `double` as numbers.
abbrev numbers : Doubles
numbers = record {
  Double = ℕ;
  one = 1;
  from = λ n. n;
  over = λ x y. x / y;
  times = λ x y. x * y;
  at_most_zero = λ x. x == 0;
  to_u64 = λ x. x;
}

-- Two shards, batches of two, no pacing.
abbrev plan : Plan
plan = record {
  reclaim = sync_batch;
  batch = 2;
  shards = 2;
  payload_bytes = 0;
  updates_per_sec = 0;
}

abbrev writer : Writer
writer = record {
  gptrs = λ shard. some (100 + shard);
  objs = λ _. record { v1 = 0; v2 = 0; payload = λ _. 0 };
  pending = 0;
  freed = 0;
  wops = 0;
  rl = [];
  seq = 0;
  shard = 1;
  next_tick = 0;
  log = [];
}

abbrev inputs : List (ℕ × ℕ)
inputs = (5, 200) ∷ (6, 201) ∷ (7, 202) ∷ []

writer-Inv : Inv plan writer
writer-Inv = record { in_list = no_books [] [] refl refl; short = inl refl; inside = omega arith }

writer_loop_grace_example :
    Leaves (writer_loop plan 1 0 inputs writer).log ([], [])
    × ((writer_loop plan 1 0 inputs writer).rl ≡ [])
writer_loop_grace_example = writer_loop_grace plan 1 0 inputs writer (omega arith) refl refl

-- The third block waits for the end of the loop.
writer_loop_run :
    (writer_loop plan 1 0 inputs writer).log
    ≡ replaced 101
      ∷ replaced 100
      ∷ synchronize_rcu_memb
      ∷ pool_free 101
      ∷ pool_free 100
      ∷ replaced 200
      ∷ synchronize_rcu_memb
      ∷ pool_free 200
      ∷ []
unfolding writer_loop turns turn update_shard swap retire push_back flush free_all finish flush_rest
    interval ℕ_discrete
writer_loop_run = refl
