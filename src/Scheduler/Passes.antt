-- ===== src/Scheduler/Passes.antt =====
-- One pass of the bounded worker: few jobs, each brought to its end.
use simple_scanner.Common.{
  ℕ, ◌+◌, ◌≤◌, ◌≡◌, refl, Bool, String, Option, none, some, List, [], ◌∷◌, arith, length,
  length-take, All, if◌then◌else◌,
}
use simple_scanner.Common.Int.{ℤ, pos, int_or}
use simple_scanner.Scheduler.Job.{Job, Store}
use simple_scanner.Scheduler.Repository.{
  bounded, list_pending, lease, lease_each, lease_next, add_some, order_by, pending_before,
}
use simple_scanner.Scheduler.Service.{Env}
use simple_scanner.Scheduler.Worker.{work_job, work_each, run_worker_once, recover_stale_leases}
use simple_scanner.Scheduler.Transitions.{IsClosed, finish-IsClosed}

length-list_pending : (limit now : ℕ) (s : Store) → length (list_pending limit now s) ≤ limit
unfolding list_pending
length-list_pending limit now s = omega (arith, length-take limit (order_by pending_before _))

bounded-le : (lo hi : ℕ) (i : ℤ) → lo ≤ hi → bounded lo hi i ≤ hi
bounded-le lo hi i h = ground arith

length-add_some : (o : Option Job) (js : List Job) → length (add_some o js) ≤ length js + 1
length-add_some none js = omega arith
length-add_some (some j) js = omega arith

length-lease_each :
    (js : List Job) (owner : String) (n : Option ℤ) (now : ℕ) (s : Store)
    → length (lease_each js owner n now s).0 ≤ length js
unfolding lease_each
length-lease_each [] owner n now s = omega arith
length-lease_each (j ∷ js) owner n now s = omega (
  arith,
  length-add_some (lease j.job_id owner n now s).0
      (lease_each js owner n now (lease j.job_id owner n now s).1).0,
  length-lease_each js owner n now (lease j.job_id owner n now s).1,
)

length-work_each :
    (env : Env) (owner : String) (n : ℕ) (js : List Job) (s : Store)
    → length (work_each env owner n js s).0 ≡ length js
unfolding work_each
length-work_each env owner n [] s = refl
length-work_each env owner n (j ∷ js) s =
    omega (arith, length-work_each env owner n js (work_job env owner n j s).1)

work_each-IsClosed :
    (env : Env) (owner : String) (n : ℕ) (js : List Job) (s : Store)
    → All IsClosed (work_each env owner n js s).0
unfolding work_each work_job
work_each-IsClosed env owner n [] s = tt
work_each-IsClosed env owner n (j ∷ js) s =
    (finish-IsClosed env _ _, work_each-IsClosed env owner n js (work_job env owner n j s).1)

-- A pass of the worker returns at most ten jobs, whatever is asked for, and each that it returns is in
-- a terminal state and held by no worker.
pub run_worker_once-IsClosed :
    (env : Env) (m : Option ℤ) (owner : String) (n : Option ℤ) (recover : Bool) (s : Store)
    → All IsClosed (run_worker_once env m owner n recover s).0
      × (length (run_worker_once env m owner n recover s).0 ≤ 10)
unfolding run_worker_once lease_next
run_worker_once-IsClosed env m owner n recover s =
    let most = bounded 1 10 (int_or m (pos 3)) in
    let k = bounded 30 86_400 (int_or n (pos 900)) in
    let s₁ = if recover then (recover_stale_leases env (some (pos most)) s).1 else s in
    let pending = list_pending (bounded 1 10 (int_or (some (pos most)) (pos 3))) env.now s₁ in
    let leased = lease_each pending owner (some (pos k)) env.now s₁ in
    (
      work_each-IsClosed env owner k leased.0 leased.1,
      omega (
        arith,
        length-work_each env owner k leased.0 leased.1,
        length-lease_each pending owner (some (pos k)) env.now s₁,
        length-list_pending (bounded 1 10 (int_or (some (pos most)) (pos 3))) env.now s₁,
        bounded-le 1 10 (int_or (some (pos most)) (pos 3)) (omega arith),
      ),
    )
