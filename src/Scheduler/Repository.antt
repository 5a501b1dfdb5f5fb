-- ===== src/Scheduler/Repository.antt =====
-- SchedulerJobRepository of services/quant-engine/app/db/repositories.py. Each method holds the lock
-- of its store from its read to its commit, so it is one step. `now` is the clock's reading.
use simple_scanner.Common.{
  ℕ, suc, ◌+◌, ◌*◌, String, Bool, true, false, ◌&&◌, ◌||◌, not, Option, none, some, List, [], ◌∷◌,
  ◌++◌, ltb, leb, ◌==◌, if◌then◌else◌, or_else, nat_or, take, keep_if, str_eq,
}
use simple_scanner.Common.Int.{ℤ, pos, int_or, at_least, min_ℤ, ltb_ℤ}
use simple_scanner.Scheduler.Value.{Value, obj, end, null, py_or}
use simple_scanner.Scheduler.Job.{
  Status, queued, running, completed, failed, cancelled, blocked, is_queued, is_running, Job,
  EventType, Store,
}

-- `max(lo, min(value, hi))`
abbrev pub bounded : ℕ → ℕ → ℤ → ℕ
bounded lo hi i = at_least lo (min_ℤ i (pos hi))

-- `timedelta(seconds=n)`
abbrev pub seconds : ℕ → ℕ
seconds n = 1_000_000 * n

-- `SELECT * FROM scheduler_jobs WHERE job_id = ?`
unfoldable pub find : ℕ → List Job → Option Job
find id [] = none
find id (j ∷ js) = if j.job_id == id then some j else find id js

unfoldable pub get : ℕ → Store → Option Job
unfolding find
get id s = find id s.jobs

-- `INSERT ... ON CONFLICT(job_id) DO UPDATE`: the row that is there keeps its `created_at`.
unfoldable pub put : Job → List Job → List Job
put j [] = j ∷ []
put j (k ∷ ks) =
    if k.job_id == j.job_id then record j { created_at = k.created_at } ∷ ks else k ∷ put j ks

-- The defaults that `save` writes for values that are falsy.
abbrev pub with_defaults : Job → Job
with_defaults j = record j {
  payload = py_or j.payload (obj end);
  result = py_or j.result (obj end);
  max_attempts = nat_or (some j.max_attempts) 1;
  timeout_seconds = nat_or (some j.timeout_seconds) 900;
}

-- `save` returns the values that it was given.
unfoldable pub save : Job → Store → Store
unfolding put
save j s = record s { jobs = put (with_defaults j) s.jobs }

-- `UPDATE ... WHERE job_id = ?`
unfoldable pub update : ℕ → (Job → Job) → List Job → List Job
update id f [] = []
update id f (k ∷ ks) = if k.job_id == id then f k ∷ ks else k ∷ update id f ks

unfoldable pub append_event : ℕ → ℕ → EventType → String → Value → Store → Store
append_event now id kind message metadata s = record s {
  events =
      s.events
      ++ record {
        job_id = id;
        event_type = kind;
        message = message;
        metadata = metadata;
        created_at = now;
      }
        ∷ [];
}

-- The order of `list_pending`: jobs with no date, then by date, priority and age.
abbrev pub date_key : Option ℕ → ℕ
date_key none = 0
date_key (some t) = suc t

unfoldable pub pending_before : Job → Job → Bool
pending_before a b =
    ltb (date_key a.scheduled_for) (date_key b.scheduled_for)
    || (date_key a.scheduled_for == date_key b.scheduled_for
        && (ltb_ℤ a.priority b.priority
            || (not (ltb_ℤ b.priority a.priority) && ltb a.created_at b.created_at)))

-- The order of `list_stale_running`.
unfoldable pub stale_before : Job → Job → Bool
stale_before a b =
    ltb (date_key a.lease_expires_at) (date_key b.lease_expires_at)
    || (date_key a.lease_expires_at == date_key b.lease_expires_at
        && (ltb_ℤ a.priority b.priority
            || (not (ltb_ℤ b.priority a.priority) && ltb a.created_at b.created_at)))

-- `ORDER BY`, by insertion; rows that the order does not tell apart keep their places.
unfoldable pub insert_row : (Job → Job → Bool) → Job → List Job → List Job
insert_row before j [] = j ∷ []
insert_row before j (k ∷ ks) = if before k j then k ∷ insert_row before j ks else j ∷ k ∷ ks

unfoldable pub order_by : (Job → Job → Bool) → List Job → List Job
unfolding insert_row
order_by before [] = []
order_by before (j ∷ js) = insert_row before j (order_by before js)

abbrev pub is_due : Option ℕ → ℕ → Bool
is_due none now = true
is_due (some t) now = leb t now

abbrev pub is_pending : ℕ → Job → Bool
is_pending now j = is_queued j.status && is_due j.scheduled_for now

unfoldable pub list_pending : ℕ → ℕ → Store → List Job
unfolding order_by pending_before
list_pending max_jobs now s =
    take max_jobs (order_by pending_before (keep_if (is_pending now) s.jobs))

abbrev pub has_expired : Option ℕ → ℕ → Bool
has_expired none now = false
has_expired (some t) now = leb t now

abbrev pub is_stale : ℕ → Job → Bool
is_stale now j = is_running j.status && has_expired j.lease_expires_at now

unfoldable pub list_stale_running : ℕ → ℕ → Store → List Job
unfolding order_by stale_before
list_stale_running limit now s = take limit (order_by stale_before (keep_if (is_stale now) s.jobs))

-- The row that a successful `lease` writes.
abbrev pub leased : String → ℕ → ℕ → Job → Job
leased owner lease_seconds now j = record j {
  status = running;
  started_at = some now;
  completed_at = none;
  failed_reason = null;
  lease_owner = some owner;
  lease_expires_at = some (now + seconds lease_seconds);
  heartbeat_at = some now;
  attempt_count = j.attempt_count + 1;
  timeout_seconds = lease_seconds;
  last_error = null;
  updated_at = now;
}

-- The three guards of `lease`, after the one on a missing row.
abbrev pub may_lease : ℕ → Job → Bool
may_lease now j =
    is_queued j.status
    && is_due j.scheduled_for now
    && ltb j.attempt_count (nat_or (some j.max_attempts) 1)

abbrev pub lease_row : Option Job → String → ℕ → ℕ → Store → Option Job × Store
lease_row none owner n now s = (none, s)
lease_row (some j) owner n now s =
    if may_lease now j
    then (
      some (leased owner n now j),
      record s { jobs = update j.job_id (leased owner n now) s.jobs },
    )
    else (none, s)

unfoldable pub lease : ℕ → String → Option ℤ → ℕ → Store → Option Job × Store
unfolding get update
lease id owner lease_seconds now s =
    lease_row (get id s) owner (bounded 30 86_400 (int_or lease_seconds (pos 900))) now s

abbrev pub add_some : Option Job → List Job → List Job
add_some none js = js
add_some (some j) js = j ∷ js

-- The loop of `lease_next`.
unfoldable pub lease_each : List Job → String → Option ℤ → ℕ → Store → List Job × Store
lease_each [] owner n now s = ([], s)
lease_each (j ∷ js) owner n now s =
    let (got, s') = lease j.job_id owner n now s in
    let (rest, s'') = lease_each js owner n now s' in (add_some got rest, s'')

unfoldable pub lease_next : String → Option ℤ → Option ℤ → ℕ → Store → List Job × Store
unfolding lease_each list_pending
lease_next owner max_jobs lease_seconds now s =
    lease_each (list_pending (bounded 1 10 (int_or max_jobs (pos 3))) now s) owner lease_seconds now
      s

-- `current` is a running job that `owner` holds.
abbrev pub is_held_by : String → Job → Bool
is_held_by owner j = is_running j.status && str_eq (or_else j.lease_owner "") owner

abbrev pub next_expiry : Option ℤ → ℕ → Option ℕ → Option ℕ
next_expiry none now old = old
next_expiry (some n) now old = some (now + seconds (bounded 30 86_400 (int_or (some n) (pos 900))))

abbrev pub beaten : Option ℤ → ℕ → Job → Job
beaten n now j = record j {
  heartbeat_at = some now;
  lease_expires_at = next_expiry n now j.lease_expires_at;
  updated_at = now;
}

abbrev pub heartbeat_row : Option Job → String → Option ℤ → ℕ → Store → Option Job × Store
heartbeat_row none owner n now s = (none, s)
heartbeat_row (some j) owner n now s =
    if is_held_by owner j
    then (some (beaten n now j), record s { jobs = update j.job_id (beaten n now) s.jobs })
    else (none, s)

unfoldable pub heartbeat : ℕ → String → Option ℤ → ℕ → Store → Option Job × Store
unfolding get update
heartbeat id owner lease_seconds now s = heartbeat_row (get id s) owner lease_seconds now s

abbrev pub released : Status → Value → ℕ → Job → Job
released status last_error now j = record j {
  status = status;
  lease_owner = none;
  lease_expires_at = none;
  heartbeat_at = none;
  last_error = py_or last_error j.last_error;
  updated_at = now;
}

abbrev pub release_row : Option Job → String → Status → Value → ℕ → Store → Option Job × Store
release_row none owner status e now s = (none, s)
release_row (some j) owner status e now s =
    if is_held_by owner j
    then (
      some (released status e now j),
      record s { jobs = update j.job_id (released status e now) s.jobs },
    )
    else (none, s)

unfoldable pub release : ℕ → String → Status → Value → ℕ → Store → Option Job × Store
unfolding get update
release id owner status last_error now s = release_row (get id s) owner status last_error now s

abbrev pub same_status : Status → Status → Bool
same_status queued queued = true
same_status running running = true
same_status completed completed = true
same_status failed failed = true
same_status cancelled cancelled = true
same_status blocked blocked = true
same_status a b = false

-- `SELECT status, count(*) ... GROUP BY status`
unfoldable pub count_status : Status → List Job → ℕ
count_status st [] = 0
count_status st (j ∷ js) = (if same_status j.status st then 1 else 0) + count_status st js

pub record StatusSummary : Type 0 where
  pub queued_jobs : ℕ
  pub running_jobs : ℕ
  pub failed_jobs : ℕ
  pub completed_jobs : ℕ
  pub cancelled_jobs : ℕ

-- `status_summary`, its counts
unfoldable pub status_summary : Store → StatusSummary
unfolding count_status
status_summary s = record {
  queued_jobs = count_status queued s.jobs;
  running_jobs = count_status running s.jobs;
  failed_jobs = count_status failed s.jobs + count_status blocked s.jobs;
  completed_jobs = count_status completed s.jobs;
  cancelled_jobs = count_status cancelled s.jobs;
}
