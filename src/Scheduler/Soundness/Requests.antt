-- ===== src/Scheduler/Soundness/Requests.antt =====
-- Every sequence of requests keeps the table of jobs sound.
use simple_scanner.Common.{
  ◌≡◌, inl, inr, Bool, true, false, String, Option, some, List, [], ◌∷◌, str_eq, if◌then◌else◌,
  Option-cases,
}
use simple_scanner.Common.Int.{ℤ, pos, int_or}
use simple_scanner.Scheduler.Job.{Store, parse_job_type}
use simple_scanner.Scheduler.Repository.{
  find, get, append_event, list_pending, list_stale_running, lease_next, bounded,
}
use simple_scanner.Scheduler.Service.{Env, CreateRequest, new_job, create_job, cancel}
use simple_scanner.Scheduler.Execution.{run_pending}
use simple_scanner.Scheduler.Worker.{recover_stale_leases, run_worker_once}
use simple_scanner.Scheduler.Commands.{
  Command, create_cmd, cancel_cmd, run_cmd, run_pending_cmd, recover_cmd, worker_cmd, HasOwner,
  handle, run_all, AllOwned, empty,
}
use simple_scanner.Scheduler.Soundness.Table.{AllSound, save-Sound, list_stale_running-Active}
use simple_scanner.Scheduler.Soundness.Rows.{new_job-Sound}
use simple_scanner.Scheduler.Soundness.Methods.{
  find-IsRow, lease_each-Active, run_job-Sound, run_each-Sound, cancel_row-Sound,
  recover_each-Sound, work_each-Sound,
}

create_job-Sound :
    (env : Env) (r : CreateRequest) (s : Store) → AllSound s → AllSound (create_job env r s).1
unfolding create_job append_event
create_job-Sound env r s hs = elim (Option-cases (parse_job_type r.job_type)) [
  | inl unknown ↦ rw (unknown, create_job) hs
  | inr (t, known) ↦
      rw (known, create_job) (save-Sound (new_job env t r) s (new_job-Sound env t r) hs)
]

recover-Sound :
    (env : Env) (m : Option ℤ) (s : Store) → AllSound s → AllSound (recover_stale_leases env m s).1
unfolding recover_stale_leases
recover-Sound env m s hs =
    recover_each-Sound env (list_stale_running (bounded 1 100 (int_or m (pos 25))) env.now s) s
      (list_stale_running-Active (bounded 1 100 (int_or m (pos 25))) env.now s hs) hs

recovered-Sound :
    (env : Env) (m : Option ℤ) (r : Bool) (s : Store)
    → AllSound s
    → AllSound (if r then (recover_stale_leases env m s).1 else s)
recovered-Sound env m true s hs = recover-Sound env m s hs
recovered-Sound env m false s hs = hs

worker-Sound :
    (env : Env) (m : Option ℤ) (owner : String) (n : Option ℤ) (r : Bool) (s : Store)
    → str_eq "" owner ≡ false
    → AllSound s
    → AllSound (run_worker_once env m owner n r s).1
unfolding run_worker_once lease_next
worker-Sound env m owner n r s ne hs =
    let most = bounded 1 10 (int_or m (pos 3)) in
    let k = bounded 30 86_400 (int_or n (pos 900)) in
    let s₁ = if r then (recover_stale_leases env (some (pos most)) s).1 else s in
    let got =
      lease_each-Active (list_pending (bounded 1 10 (int_or (some (pos most)) (pos 3))) env.now s₁)
        owner (some (pos k)) env.now s₁ (recovered-Sound env (some (pos most)) r s hs) in
    work_each-Sound env owner k (lease_next owner (some (pos most)) (some (pos k)) env.now s₁).0
      (lease_next owner (some (pos most)) (some (pos k)) env.now s₁).1 ne got.1 got.0

-- One request keeps the table of jobs sound.
pub handle-Sound :
    (env : Env) (c : Command) (s : Store) → HasOwner c → AllSound s → AllSound (handle env c s)
unfolding handle cancel get run_pending
handle-Sound env (create_cmd r) s h hs = create_job-Sound env r s hs
handle-Sound env (cancel_cmd id) s h hs =
    cancel_row-Sound env id (find id s.jobs) s hs (find-IsRow id s hs)
handle-Sound env (run_cmd id) s h hs = run_job-Sound env id s hs
handle-Sound env (run_pending_cmd m) s h hs =
    run_each-Sound env (list_pending (bounded 1 10 (int_or m (pos 3))) env.now s) s hs
handle-Sound env (recover_cmd m) s h hs = recover-Sound env m s hs
handle-Sound env (worker_cmd m owner n r) s h hs = worker-Sound env m owner n r s h hs

run_all-Sound :
    (requests : List (Env × Command)) (s : Store)
    → AllOwned requests
    → AllSound s
    → AllSound (run_all requests s)
unfolding run_all
run_all-Sound [] s h hs = hs
run_all-Sound ((env, c) ∷ rest) s h hs =
    run_all-Sound rest (handle env c s) h.1 (handle-Sound env c s h.0 hs)

-- After any requests, by any clock and environment and whatever the jobs' work returns or raises,
-- each job of the table holds a whole lease or none, and none unless it runs; has a completion time
-- exactly in a terminal state; and has been leased no more often than its attempts allow. The
-- worker's owner is not the empty text.
pub run_all-empty-Sound :
    (requests : List (Env × Command)) → AllOwned requests → AllSound (run_all requests empty)
run_all-empty-Sound requests h = run_all-Sound requests empty h tt
