-- ===== src/Api/Ids.antt =====
-- Thread IDs: the search for a free one, and what becomes of it in the initialization of a thread.
use atomsnap.Common.{ℕ, ◌+◌, ◌≤◌, ◌<◌, ◌≡◌, Bool, true, false, Option, none, some}
use atomsnap.Pool.Memory.{Context}
use atomsnap.Api.World.{World}
use atomsnap.Api.Threads.{new_context}

-- Where the search of `n` IDs from `i` on ends.
abbrev pub Found : (n i : ℕ) → (ℕ → Bool) → Option ℕ → Type 0
Found n i used none = (j : ℕ) → i ≤ j → j < i + n → used j ≡ true
Found n i used (some t) =
    (i ≤ t) × (t < i + n) × (used t ≡ false) × ((j : ℕ) → i ≤ j → j < t → used j ≡ true)

-- The context that a thread with ID `t` works with: the one of an earlier thread, or a new one.
abbrev pub adopted : Option Context → ℕ → Context
adopted none t = new_context t
adopted (some ctx) t = ctx

-- Each ID that a thread works with is used.
abbrev pub AllUsed : World → Type 0
AllUsed w = (m j : ℕ) → w.tls m ≡ some j → w.tid_used j ≡ true
