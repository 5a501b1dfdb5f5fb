-- ===== src/Scheduler/Soundness/Table.antt =====
-- The invariant of a row of scheduler_jobs, and the reads and writes of the table that keep it.
use simple_scanner.Common.{
  ℕ, ◌≤◌, ◌<◌, ◌≡◌, subst, inl, inr, Bool, true, false, some, List, [], ◌∷◌, arith, ◌==◌, All,
  All-take, is_some, keep_if, Bool-cases,
}
use simple_scanner.Scheduler.Job.{Job, Store, is_running, is_terminal}
use simple_scanner.Scheduler.Repository.{
  find, put, save, with_defaults, update, insert_row, order_by, is_stale, list_stale_running,
  stale_before,
}

-- A lease is held by a running job only, and whole; a job has a completion time exactly when it is
-- in a terminal state; its attempts stay within its bound.
pub record IsSound (j : Job) : Type 0 where
  pub attempts : j.attempt_count ≤ j.max_attempts
  pub bound_pos : 0 < j.max_attempts
  pub idle : is_running j.status ≡ false → is_some j.lease_owner ≡ false
  pub whole : is_some j.lease_expires_at ≡ is_some j.lease_owner
  pub beating : is_some j.heartbeat_at ≡ is_some j.lease_owner
  pub closed : is_some j.completed_at ≡ is_terminal j.status

abbrev pub AllSound : Store → Type 0
AllSound s = All IsSound s.jobs

-- A running job of the table, as the loops of the service hold it.
abbrev pub IsActive : Job → Type 0
IsActive j = IsSound j × (is_running j.status ≡ true)

pub IsSound-created_at : (j : Job) (t : ℕ) → IsSound j → IsSound (record j { created_at = t })
IsSound-created_at j t h = record {
  attempts = h.attempts;
  bound_pos = h.bound_pos;
  idle = h.idle;
  whole = h.whole;
  beating = h.beating;
  closed = h.closed;
}

pub IsSound-defaults : (j : Job) → IsSound j → IsSound (with_defaults j)
IsSound-defaults j h = ground arith

pub put-Sound : (j : Job) (js : List Job) → IsSound j → All IsSound js → All IsSound (put j js)
unfolding put
put-Sound j [] h hs = (h, tt)
put-Sound j (k ∷ ks) h hs = elim (Bool-cases (k.job_id == j.job_id)) [
  | inl e ↦ rw e (IsSound-created_at j k.created_at h, hs.1)
  | inr e ↦ rw e (hs.0, put-Sound j ks h hs.1)
]

pub save-Sound : (j : Job) (s : Store) → IsSound j → AllSound s → AllSound (save j s)
unfolding save
save-Sound j s h hs = put-Sound (with_defaults j) s.jobs (IsSound-defaults j h) hs

pub find-Sound :
    (id : ℕ) (js : List Job) {j : Job} → All IsSound js → find id js ≡ some j → IsSound j
unfolding find
find-Sound id [] hs e = cc
find-Sound id (k ∷ ks) {j} hs e = elim (Bool-cases (k.job_id == id)) [
  | inl same ↦ subst IsSound (let found : k ≡ j = ground (arith, same, e) in found) hs.0
  | inr other ↦ find-Sound id ks hs.1 (rw other at e)
]

pub find-job_id : (id : ℕ) (js : List Job) {j : Job} → find id js ≡ some j → j.job_id ≡ id
unfolding find
find-job_id id [] e = cc
find-job_id id (k ∷ ks) {j} e = elim (Bool-cases (k.job_id == id)) [
  | inl same ↦ ground (arith, same, e)
  | inr other ↦ find-job_id id ks (rw other at e)
]

pub update-Sound :
    (id : ℕ) (f : Job → Job) (js : List Job)
    → ((j : Job) → find id js ≡ some j → IsSound (f j))
    → All IsSound js
    → All IsSound (update id f js)
unfolding update find
update-Sound id f [] h hs = tt
update-Sound id f (k ∷ ks) h hs = elim (Bool-cases (k.job_id == id)) [
  | inl same ↦ rw same (h k (rw same), hs.1)
  | inr other ↦ rw other (hs.0, update-Sound id f ks (λ j e. h j (rw other e)) hs.1)
]

-- The ordered and cut listings hold rows of the table.
module _ (P : Job → Type 0) (before : Job → Job → Bool) where
  pub All-insert_row : (j : Job) (js : List Job) → P j → All P js → All P (insert_row before j js)
  unfolding insert_row
  All-insert_row j [] h hs = (h, tt)
  All-insert_row j (k ∷ ks) h hs = elim (Bool-cases (before k j)) [
    | inl e ↦ rw e (hs.0, All-insert_row j ks h hs.1)
    | inr e ↦ rw e (h, hs)
  ]

  pub All-order_by : (js : List Job) → All P js → All P (order_by before js)
  unfolding order_by
  All-order_by [] hs = tt
  All-order_by (j ∷ js) hs = All-insert_row j (order_by before js) hs.0 (All-order_by js hs.1)

-- The members that a comprehension keeps satisfy what all did, and its test.
pub All-keep_both :
    (p : Job → Bool) (js : List Job)
    → All IsSound js
    → All (λ j. IsSound j × (p j ≡ true)) (keep_if p js)
All-keep_both p [] hs = tt
All-keep_both p (j ∷ js) hs = elim (Bool-cases (p j)) [
  | inl e ↦ rw e ((hs.0, e), All-keep_both p js hs.1)
  | inr e ↦ rw e (All-keep_both p js hs.1)
]

pub All-map : (P Q : Job → Type 0) (js : List Job) → ((j : Job) → P j → Q j) → All P js → All Q js
All-map P Q [] f hs = tt
All-map P Q (j ∷ js) f hs = (f j hs.0, All-map P Q js f hs.1)

pub list_stale_running-Active :
    (limit now : ℕ) (s : Store) → AllSound s → All IsActive (list_stale_running limit now s)
unfolding list_stale_running
list_stale_running-Active limit now s hs = All-take IsActive limit _ (
    All-order_by IsActive stale_before (keep_if (is_stale now) s.jobs) (
      All-map _ IsActive (keep_if (is_stale now) s.jobs) (λ j h. (h.0, ground (arith, h.1)))
        (All-keep_both (is_stale now) s.jobs hs)))
