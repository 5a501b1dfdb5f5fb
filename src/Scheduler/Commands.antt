-- ===== src/Scheduler/Commands.antt =====
-- The requests that change the scheduler's tables.
use simple_scanner.Common.{ℕ, ◌≡◌, Bool, false, String, Option, List, [], ◌∷◌, str_eq}
use simple_scanner.Common.Int.{ℤ}
use simple_scanner.Scheduler.Job.{Store}
use simple_scanner.Scheduler.Service.{Env, CreateRequest, create_job, cancel}
use simple_scanner.Scheduler.Execution.{run_job, run_pending}
use simple_scanner.Scheduler.Worker.{recover_stale_leases, run_worker_once}

-- One call of the service.
pub data Command : Type 0 where
  create_cmd : CreateRequest → Command
  cancel_cmd run_cmd : ℕ → Command
  run_pending_cmd recover_cmd : Option ℤ → Command
  worker_cmd : Option ℤ → String → Option ℤ → Bool → Command

-- `_lease_owner` never gives the empty text.
abbrev pub HasOwner : Command → Type 0
HasOwner (worker_cmd m owner n r) = str_eq "" owner ≡ false
HasOwner c = Unit

unfoldable pub handle : Env → Command → Store → Store
handle env (create_cmd r) s = (create_job env r s).1
handle env (cancel_cmd id) s = (cancel env id s).1
handle env (run_cmd id) s = (run_job env id s).1
handle env (run_pending_cmd m) s = (run_pending env m s).1
handle env (recover_cmd m) s = (recover_stale_leases env m s).1
handle env (worker_cmd m owner n r) s = (run_worker_once env m owner n r s).1

-- Requests one after another, each at its own time and in its own environment.
unfoldable pub run_all : List (Env × Command) → Store → Store
unfolding handle
run_all [] s = s
run_all ((env, c) ∷ rest) s = run_all rest (handle env c s)

abbrev pub AllOwned : List (Env × Command) → Type 0
AllOwned [] = Unit
AllOwned ((env, c) ∷ rest) = HasOwner c × AllOwned rest

abbrev pub empty : Store
empty = record { jobs = []; events = [] }
