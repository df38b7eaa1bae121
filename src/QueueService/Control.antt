-- ===== src/QueueService/Control.antt =====
-- `start_service`, `stop_service`, `stop_process` and `stop_worker` of queue_service.py. A task that
-- is cancelled and awaited is one call, `join_worker` or `join_job`, whose reply is how it ended.
use claimsintelligence.Base.{
  ℕ, zero, suc, ◌+◌, String, Bool, true, false, not, Option, none, some, List, [], ◌∷◌, max,
  if◌then◌else◌, ◌==◌, nat_key, string_key, is_empty, member, discard,
}
use claimsintelligence.Exec.{
  Exec, Outcome, returned, raised, pure, gets, modify, raise, catch, catch_exception, is_azure,
  is_cancelled, finally, ◌>>=◌, ◌>>◌,
}
use claimsintelligence.Dict
use claimsintelligence.Dict.{Dict}
use claimsintelligence.QueueService.State.{
  Config, Call, delete_message, join_worker, join_job, create_main_queue, create_dead_letter_queue,
  gather_workers, gather_jobs, close_main_queue, close_dead_letter_queue, close_queue_service, Env,
  Service, perform,
}
use claimsintelligence.QueueService.Blobs.{cleanup_output_blobs}

-- max(1, int(config.concurrent_workers or 1))
abbrev pub worker_count : Config → ℕ
worker_count c = max 1 c.concurrent_workers

-- range(first, first + n)
abbrev pub worker_ids : ℕ → ℕ → List ℕ
worker_ids zero first = []
worker_ids (suc n) first = first ∷ worker_ids n (first + 1)

-- The first worker that ended by an exception which is no cancellation.
unfoldable pub worker_error : List (Outcome (Unit {0})) → Outcome (Unit {0})
worker_error [] = returned tt
worker_error (returned u ∷ results) = worker_error results
worker_error (raised e ∷ results) =
    let rest = worker_error results in if is_cancelled e then rest else raised e

abbrev pub spawn : Service → Service
spawn s = record s { worker_tasks = worker_ids (worker_count s.config) 1 }

-- `gather` stands for the workers' tasks: how each ends and what they make of the service, unless
-- the wait for them is itself cancelled.
abbrev pub Gather : Type 0
Gather = Exec Service (List (Outcome (Unit {0})))

abbrev reraise : Outcome (Unit {0}) → Exec Service (Unit {0})
reraise r s = (r, s)

module _ (env : Env) where
  unfoldable pub ensure_queues_exist : Exec Service (Unit {0})
  ensure_queues_exist = do
    main ← gets (λ (s : Service). s.main_queue)
    catch_exception (if main then (do perform env create_main_queue; pure tt) else pure tt)
        (λ e. pure tt)
    dead ← gets (λ (s : Service). s.dead_letter_queue)
    catch_exception (if dead then (do perform env create_dead_letter_queue; pure tt) else pure tt)
        (λ e. pure tt)

  abbrev run_workers : Gather → Exec Service (Unit {0})
  run_workers gather = do
    ensure_queues_exist
    modify spawn
    results ← gather
    reraise (worker_error results)

  unfoldable pub start_service : Gather → Exec Service (Unit {0})
  start_service gather = do
    running ← gets (λ (s : Service). s.is_running)
    if running then pure tt else do
      modify (λ (s : Service). record s { is_running = true })
      finally (run_workers gather) (λ s. record s { is_running = false; worker_tasks = [] })

-- The worker whose current process this is: the first entry, and none if its id is 0.
unfoldable pub find_inflight : String → Dict ℕ String → Option ℕ
find_inflight process_id [] = none
find_inflight process_id ((w, c) ∷ rest) =
    if c == process_id then some w else find_inflight process_id rest

abbrev pub clear_inflight : Service → Service
clear_inflight s = record s {
  inflight = [];
  inflight_message = [];
  inflight_batch_id = [];
  inflight_task = [];
}

-- The entries of a worker, which `finally` removes.
unfoldable pub forget_worker : ℕ → Service → Service
forget_worker w s = record s {
  worker_tasks = discard w s.worker_tasks;
  inflight = Dict.pop s.inflight w;
  inflight_message = Dict.pop s.inflight_message w;
  inflight_batch_id = Dict.pop s.inflight_batch_id w;
  inflight_task = discard w s.inflight_task;
  active_workers = discard w s.active_workers;
}

module _ (env : Env) where
  unfoldable pub delete_inflight_queue_message : ℕ → Exec Service (Unit {0})
  delete_inflight_queue_message w s = elim (Dict.get s.inflight_message w) [
    | none ↦ (returned tt, s)
    | some (i, p) ↦
        if not s.main_queue
        then (returned tt, s)
        else catch (do perform env (delete_message i p); pure tt)
            (λ e. if is_azure e then pure tt else raise e) s
  ]

  -- What the tasks raise is collected; this raises only where the stop itself is cancelled.
  abbrev gather_if : Call → List ℕ → Exec Service (Unit {0})
  gather_if c [] = pure tt
  gather_if c (w ∷ ws) = do perform env c; pure tt

  abbrev close : Bool → Call → Exec Service (Unit {0})
  close present c =
      catch_exception (if present then (do perform env c; pure tt) else pure tt) (λ e. pure tt)

  unfoldable pub stop_tasks : Exec Service (Unit {0})
  stop_tasks = do
    modify λ (s : Service). record s {
      is_running = false;
      active_instances = discard s.instance_id s.active_instances;
    }
    workers ← gets (λ (s : Service). s.worker_tasks)
    gather_if (gather_workers workers) workers
    modify (λ (s : Service). record s { worker_tasks = [] })
    jobs ← gets (λ (s : Service). s.inflight_task)
    gather_if (gather_jobs jobs) jobs
    modify clear_inflight

  unfoldable pub close_clients : Exec Service (Unit {0})
  close_clients = do
    main ← gets (λ (s : Service). s.main_queue)
    close main close_main_queue
    dead ← gets (λ (s : Service). s.dead_letter_queue)
    close dead close_dead_letter_queue
    close true close_queue_service

  unfoldable pub stop_service : Exec Service (Unit {0})
  stop_service = do stop_tasks; close_clients

  abbrev cleanup_batch : Option String → Exec Service (Unit {0})
  cleanup_batch none = pure tt
  cleanup_batch (some c) = if is_empty c then pure tt else cleanup_output_blobs env c

  -- The cancelled job is awaited; how it ends is swallowed, also a timeout.
  unfoldable pub kill_job : ℕ → Exec Service (Unit {0})
  kill_job w = do
    present ← gets (λ (s : Service). member w s.inflight_task)
    if present then catch (do perform env (join_job w); pure tt) (λ e. pure tt) else pure tt

  unfoldable pub stop_process_of : Option ℕ → Exec Service Bool
  stop_process_of none = pure false
  stop_process_of (some zero) = pure false
  stop_process_of (some (suc n)) = do
    delete_inflight_queue_message (suc n)
    batch_id ← gets (λ (s : Service). Dict.get s.inflight_batch_id (suc n))
    cleanup_batch batch_id
    kill_job (suc n)
    pure true

  unfoldable pub stop_process : String → Exec Service Bool
  stop_process process_id s = stop_process_of (find_inflight process_id s.inflight) s

  -- `except Exception` lets the cancellation through by which the awaited worker ends.
  unfoldable pub stop_worker : ℕ → Exec Service Bool
  stop_worker w = do
    present ← gets (λ (s : Service). member w s.worker_tasks)
    if not present then pure false else do
      finally (catch_exception (do perform env (join_worker w); pure tt) (λ e. pure tt))
          (forget_worker w)
      pure true
