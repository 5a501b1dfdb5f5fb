-- ===== src/Scheduler/Leases.antt =====
-- A lease is exclusive, and is given only to a job that is due with attempts left.
use simple_scanner.Common.{
  ℕ, ◌+◌, ◌≤◌, ◌≡◌, ◌≢◌, refl, sym, subst, inl, inr, true, false, String, Option, none, some, List,
  [], ◌∷◌, arith, ◌==◌, if◌then◌else◌, str_eq, Bool-cases, is_some,
}
use simple_scanner.Common.Int.{ℤ, pos, int_or}
use simple_scanner.Scheduler.Value.{Value}
use simple_scanner.Scheduler.Job.{Job, Store, Status, is_queued}
use simple_scanner.Scheduler.Repository.{
  find, update, leased, may_lease, lease_row, lease, heartbeat_row, heartbeat, is_held_by,
  release_row, release, bounded,
}

-- The row that an update wrote is the one that is read next.
pub find-update_self :
    (id : ℕ) (f : Job → Job) (js : List Job) {j : Job}
    → find id js ≡ some j
    → ((k : Job) → (f k).job_id ≡ k.job_id)
    → find id (update id f js) ≡ some (f j)
unfolding find update
find-update_self id f [] e h = cc
find-update_self id f (k ∷ ks) {j} e h = elim (Bool-cases (k.job_id == id)) [
  | inl same ↦ ground (arith, same, h k, e)
  | inr other ↦ rw (other, other) (find-update_self id f ks (rw other at e) h)
]

pub find-update_ne :
    (id other : ℕ) (f : Job → Job) (js : List Job)
    → other ≢ id
    → ((k : Job) → (f k).job_id ≡ k.job_id)
    → find other (update id f js) ≡ find other js
unfolding find update
find-update_ne id other f [] ne h = refl
find-update_ne id other f (k ∷ ks) ne h = ground (arith, h k, find-update_ne id other f ks ne h)

-- What a successful lease tells of the row that it read and of the row that it left.
pub record WasLeased (id : ℕ) (owner : String) (n : ℕ) (now : ℕ) (s s' : Store) : Type 0 where
  pub before : Job
  pub was_there : find id s.jobs ≡ some before
  pub allowed : may_lease now before ≡ true
  pub is_there : find id s'.jobs ≡ some (leased owner n now before)

find_id : (id : ℕ) (js : List Job) {j : Job} → find id js ≡ some j → j.job_id ≡ id
unfolding find
find_id id [] e = cc
find_id id (k ∷ ks) {j} e = elim (Bool-cases (k.job_id == id)) [
  | inl same ↦ ground (arith, same, e)
  | inr other ↦ find_id id ks (rw other at e)
]

lease_row-WasLeased :
    (id : ℕ) (o : Option Job) (owner : String) (n now : ℕ) (s : Store)
    → find id s.jobs ≡ o
    → is_some (lease_row o owner n now s).0 ≡ true
    → WasLeased id owner n now s (lease_row o owner n now s).1
lease_row-WasLeased id none owner n now s e h = cc
lease_row-WasLeased id (some j) owner n now s e h = elim (Bool-cases (may_lease now j)) [
  | inl ok ↦ rw ok (record {
    before = j;
    was_there = e;
    allowed = ok;
    is_there =
        subst (λ k. find id (update k (leased owner n now) s.jobs) ≡ some (leased owner n now j))
          (sym (find_id id s.jobs e))
          (find-update_self id (leased owner n now) s.jobs e (λ k. refl));
  })
  | inr refused ↦ cc (rw refused at h)
]

lease-WasLeased :
    (id : ℕ) (owner : String) (n : Option ℤ) (now : ℕ) (s : Store)
    → is_some (lease id owner n now s).0 ≡ true
    → WasLeased id owner (bounded 30 86_400 (int_or n (pos 900))) now s (lease id owner n now s).1
unfolding lease
lease-WasLeased id owner n now s h =
    lease_row-WasLeased id (find id s.jobs) owner (bounded 30 86_400 (int_or n (pos 900))) now s
      refl h

-- A running row is leased to nobody.
lease_running :
    (id : ℕ) (owner : String) (n : Option ℤ) (now : ℕ) (s : Store) {j : Job}
    → find id s.jobs ≡ some j
    → is_queued j.status ≡ false
    → lease id owner n now s ≡ (none, s)
unfolding lease
lease_running id owner n now s e h = rw (e, lease_row) (rw h)

heartbeat_other :
    (id : ℕ) (owner : String) (n : Option ℤ) (now : ℕ) (s : Store) {j : Job}
    → find id s.jobs ≡ some j
    → is_held_by owner j ≡ false
    → heartbeat id owner n now s ≡ (none, s)
unfolding heartbeat
heartbeat_other id owner n now s e h = rw (e, heartbeat_row) (rw h)

release_other :
    (id : ℕ) (owner : String) (st : Status) (v : Value) (now : ℕ) (s : Store) {j : Job}
    → find id s.jobs ≡ some j
    → is_held_by owner j ≡ false
    → release id owner st v now s ≡ (none, s)
unfolding release
release_other id owner st v now s e h = rw (e, release_row) (rw h)

-- After a lease that succeeded, another lease of the job, at any time and by any owner, returns
-- nothing and changes nothing; and so do a heartbeat and a release by an owner of another name.
pub lease-exclusive :
    (id : ℕ) (a b : String) (n m : Option ℤ) (now later : ℕ) (st : Status) (v : Value) (s : Store)
    → is_some (lease id a n now s).0 ≡ true
    → str_eq a b ≡ false
    → let s' = (lease id a n now s).1 in
      (lease id a m later s' ≡ (none, s'))
      × (lease id b m later s' ≡ (none, s'))
      × (heartbeat id b m later s' ≡ (none, s'))
      × (release id b st v later s' ≡ (none, s'))
lease-exclusive id a b n m now later st v s h ne =
    let w = lease-WasLeased id a n now s h in
    (
      lease_running id a m later (lease id a n now s).1 w.is_there refl,
      lease_running id b m later (lease id a n now s).1 w.is_there refl,
      heartbeat_other id b m later (lease id a n now s).1 w.is_there ne,
      release_other id b st v later (lease id a n now s).1 w.is_there ne,
    )

-- The seconds of a lease, whatever is asked for.
abbrev pub lease_length : Option ℤ → ℕ
lease_length n = bounded 30 86_400 (int_or n (pos 900))

lease_length_bounds : (n : Option ℤ) → (30 ≤ lease_length n) × (lease_length n ≤ 86_400)
lease_length_bounds n = ground arith

lease_row_lem :
    (id : ℕ) (owner : String) (n now : ℕ) (s : Store) (j : Job)
    → find id s.jobs ≡ some j
    → ((lease_row (some j) owner n now s).0
        ≡ (if may_lease now j then some (leased owner n now j) else none))
      × (find id (lease_row (some j) owner n now s).1.jobs
          ≡ some (if may_lease now j then leased owner n now j else j))
lease_row_lem id owner n now s j e = elim (Bool-cases (may_lease now j)) [
  | inl ok ↦ rw ok (
    refl,
    subst (λ k. find id (update k (leased owner n now) s.jobs) ≡ some (leased owner n now j))
        (sym (find_id id s.jobs e)) (find-update_self id (leased owner n now) s.jobs e (λ k. refl)),
  )
  | inr refused ↦ rw refused (refl, e)
]

-- A lease of a row that is there succeeds exactly if the row is queued, due and has attempts left:
-- then it returns, and leaves in the table, the row as leased, which counts one attempt more and
-- expires after 30 seconds at least and a day at most; else it returns nothing and leaves the row.
lease_lem :
    (id : ℕ) (owner : String) (n : Option ℤ) (now : ℕ) (s : Store) {j : Job}
    → find id s.jobs ≡ some j
    → let (got, s') = lease id owner n now s in
      let row = leased owner (lease_length n) now j in
      (got ≡ (if may_lease now j then some row else none))
      × (find id s'.jobs ≡ some (if may_lease now j then row else j))
      × (row.attempt_count ≡ j.attempt_count + 1)
      × (30 ≤ lease_length n)
      × (lease_length n ≤ 86_400)
unfolding lease
lease_lem id owner n now s {j} e = rw e (
  (lease_row_lem id owner (lease_length n) now s j e).0,
  (lease_row_lem id owner (lease_length n) now s j e).1,
  refl,
  (lease_length_bounds n).0,
  (lease_length_bounds n).1,
)
