-- ===== src/Scheduler/Pending.antt =====
-- `list_pending`: the jobs that are due, in the order of the queue, cut at the limit.
use mathlib.Core.List.{Perm}
use mathlib.Core.List.Perm
use simple_scanner.Common.{
  ℕ, ◌≡◌, Bool, true, false, List, [], ◌∷◌, Option, none, some, ◌⊎◌, ◌≤◌, ◌<◌,
}
use simple_scanner.Common.Int.{ltb_ℤ}
use simple_scanner.Scheduler.Job.{Job, queued}

-- No row stands directly behind one that the order puts after it.
abbrev pub IsOrdered : (Job → Job → Bool) → List Job → Type 0
IsOrdered before [] = Unit
IsOrdered before (j ∷ []) = Unit
IsOrdered before (j ∷ k ∷ ks) = (before k j ≡ false) × IsOrdered before (k ∷ ks)

-- A time to wait for is over: none is, and one that has come.
abbrev pub IsOver : ℕ → Option ℕ → Type 0
IsOver now none = Unit
IsOver now (some t) = t ≤ now

-- A job that waits: it is queued, and is scheduled for no time or for one that has come.
abbrev pub IsWaiting : ℕ → Job → Type 0
IsWaiting now j = (j.status ≡ queued) × IsOver now j.scheduled_for

-- The queue of `ORDER BY`: jobs without a time come first, then those with an earlier time, and among
-- those with none or the same time the lower priority counts, and then the creation.
abbrev pub InTurn : Option ℕ → Option ℕ → Type 0 → Type 0
InTurn none none later = later
InTurn none (some t) later = Unit
InTurn (some t) none later = ⊥
InTurn (some t) (some u) later = (t < u) ⊎ ((t ≡ u) × later)

abbrev pub IsNotAfter : Job → Job → Type 0
IsNotAfter j k = InTurn j.scheduled_for k.scheduled_for (
    (ltb_ℤ j.priority k.priority ≡ true)
    ⊎ ((ltb_ℤ k.priority j.priority ≡ false) × (j.created_at ≤ k.created_at)))

abbrev pub IsQueue : List Job → Type 0
IsQueue [] = Unit
IsQueue (j ∷ []) = Unit
IsQueue (j ∷ k ∷ ks) = IsNotAfter j k × IsQueue (k ∷ ks)

-- The jobs of the table that wait and those that do not, in the order of the table.
abbrev pub Sifts : ℕ → List Job → List Job → Type 0
Sifts now [] waiting = waiting ≡ []
Sifts now (j ∷ js) waiting =
    ((later : List Job) × IsWaiting now j × (waiting ≡ j ∷ later) × Sifts now js later)
    ⊎ ((IsWaiting now j → ⊥) × Sifts now js waiting)
