-- ===== src/QueueService/Shutdown.antt =====
-- Starting and stopping: `start_service`, `stop_service`, `stop_worker` and `stop_process` of
-- queue_service.py.
use claimsintelligence.Base.{
  ℕ, zero, suc, ◌+◌, ◌≡◌, refl, true, false, none, List, [], ◌∷◌, arith, if◌then◌else◌, nat_key,
  string_key, member, discard, length,
}
use claimsintelligence.Exec.{returned, raised, is_cancelled, catch_exception, ◌>>=◌}
use claimsintelligence.Exec.Keeps.{Keeps, keeps_rules, bind-establishes}
use claimsintelligence.Dict
use claimsintelligence.Dict.{get-pop}
use claimsintelligence.QueueService.State.{
  Call, gather_workers, gather_jobs, join_worker, Reply, fail, done, Env, Service, perform,
}
use claimsintelligence.QueueService.Control.{
  worker_ids, Gather, start_service, stop_tasks, close_clients, stop_service, forget_worker,
  stop_worker,
}

-- The workers that are started are as many as are asked for.
pub length-worker_ids : (n first : ℕ) → length (worker_ids n first) ≡ n
length-worker_ids zero first = refl
length-worker_ids (suc n) first = omega (arith, length-worker_ids n (first + 1))

pub record IsStopped (ids : List ℕ) (s : Service) : Type 0 where
  pub not_running : s.is_running ≡ false
  pub no_worker : s.worker_tasks ≡ []
  pub no_job : s.inflight_task ≡ []
  pub no_process : s.inflight ≡ []
  pub no_message : s.inflight_message ≡ []
  pub no_batch : s.inflight_batch_id ≡ []
  pub instances : s.active_instances ≡ ids

module _ (env : Env) where
  -- What a worker's stop comes to, on each branch: nothing for a worker that there is not;
  -- otherwise every entry of the worker goes, and the result is True unless the worker's task ended
  -- by a cancellation, which is raised on.
  pub stop_worker-outcomes :
      (w : ℕ) (s : Service)
      → let r = env s.trace (join_worker w) in
        let gone = forget_worker w (record s { trace = (join_worker w, r) ∷ s.trace }) in
        stop_worker env w s ≡ (
          if member w s.worker_tasks
          then (elim r [
            | fail e ↦ if is_cancelled e then (raised e, gone) else (returned true, gone)
            | _ ↦ (returned true, gone)
          ])
          else (returned false, s))
  unfolding stop_worker perform ◌>>=◌ catch_exception
  stop_worker-outcomes w s = ground arith

  -- The stop of a worker that there is leaves no inflight process and no receipt of it, whatever its
  -- task ended by.
  pub stop_worker-forgets :
      (w : ℕ) (s : Service)
      → member w s.worker_tasks ≡ true
      → (Dict.get (stop_worker env w s).1.inflight w ≡ none)
        × (Dict.get (stop_worker env w s).1.inflight_message w ≡ none)
  unfolding stop_worker perform ◌>>=◌ catch_exception forget_worker
  stop_worker-forgets w s h =
      (ground (arith, get-pop s.inflight w w), ground (arith, get-pop s.inflight_message w w))

  perform-IsStopped : (ids : List ℕ) (c : Call) → Keeps (IsStopped ids) (perform env c)
  unfolding perform
  perform-IsStopped ids c = record {
    after = λ s h. record {
      not_running = h.not_running;
      no_worker = h.no_worker;
      no_job = h.no_job;
      no_process = h.no_process;
      no_message = h.no_message;
      no_batch = h.no_batch;
      instances = h.instances;
    };
  }

  close_clients-IsStopped : (ids : List ℕ) → Keeps (IsStopped ids) (close_clients env)
  unfolding close_clients
  close_clients-IsStopped ids = search (keeps_rules, perform-IsStopped) depth 12

  -- A stop whose waits for the tasks are not themselves cancelled leaves nothing running and
  -- nothing tracked, and the instance is no longer listed. How the clients close does not matter.
  pub stop_service-IsStopped :
      (s : Service)
      → ((t : List (Call × Reply)) (ws : List ℕ) → env t (gather_workers ws) ≡ done)
      → ((t : List (Call × Reply)) (ws : List ℕ) → env t (gather_jobs ws) ≡ done)
      → IsStopped (discard s.instance_id s.active_instances) (stop_service env s).1
  unfolding stop_service
  stop_service-IsStopped s gw gj =
      let ids = discard s.instance_id s.active_instances in
      bind-establishes {P = IsStopped ids} (stop_tasks env) _ s tasks
        (λ _. close_clients-IsStopped ids)
    where
      tasks : IsStopped (discard s.instance_id s.active_instances) (stop_tasks env s).1
      tasks =
          unfold stop_tasks perform ◌>>=◌ in
          ground (
            arith,
            gw s.trace s.worker_tasks,
            gj s.trace s.inflight_task,
            gj ((gather_workers s.worker_tasks, done) ∷ s.trace) s.inflight_task,
          )

  -- Once the start of a service that does not run has ended, by an exception too, the service does
  -- not run and has no worker.
  pub start_service-ends :
      (gather : Gather) (s : Service)
      → s.is_running ≡ false
      → ((start_service env gather s).1.is_running ≡ false)
        × ((start_service env gather s).1.worker_tasks ≡ [])
  unfolding start_service ◌>>=◌
  start_service-ends gather s h = ground arith
