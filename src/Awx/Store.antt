-- ===== src/Awx/Store.antt =====
-- awx-sim/internal/state/store.go. Every function is one section under the mutex; `LaunchJob` has
-- several and is one function for each.
use cirrus_sim.Base.{
  ℕ, if◌then◌else◌, String, none, ◌+◌, [], not, List, some, Option, Bool, nat_eq, ◌*◌, ◌==◌, ◌%◌,
  string_eq, ◌^◌,
}
use cirrus_sim.Base.Dict.{lookup, insert, values}
use cirrus_sim.Base.Exec.{Exec, ◌>>=◌, ◌>>◌, pure, raise_if, gets, or_raise, modify}
use cirrus_sim.Awx.Types.{
  Store, next, notice, StoreError, Job, CallbackConfig, Timer, no_callback, Notice, JobTemplate,
  started_job, job_not_found, JobStats, template_not_found, is_open, completed, count_jobs,
  name_required, is_running, pending, cannot_cancel, canceled_job,
}

module _ {X Φ : Type 0} where
  unfoldable pub new_store : Store X Φ
  new_store = record {
    templates = [];
    jobs = [];
    next_template_id = 1;
    next_job_id = 1;
    callback = no_callback;
    epoch = 0;
  }

  unfoldable pub create_template :
      String → String → ℕ → Φ → Exec StoreError (Store X Φ) (JobTemplate Φ)
  unfolding next
  create_template name description duration_ms failure_rate = do
    raise_if (name == "") name_required
    id ← gets (λ s. s.next_template_id)
    let t : JobTemplate Φ = record {
      id = id;
      name = name;
      description = description;
      expected_duration_ms = duration_ms;
      failure_rate = failure_rate;
    }
    modify (λ s. record s {
      templates = insert id t s.templates;
      next_template_id = next s.next_template_id;
    })
    pure t

  unfoldable pub get_template : ℕ → Exec StoreError (Store X Φ) (JobTemplate Φ)
  get_template id = do t ← gets (λ s. lookup id s.templates); or_raise t (template_not_found id)

  unfoldable pub list_templates : Store X Φ → List (JobTemplate Φ)
  list_templates s = values s.templates

  unfoldable pub put_job : Job X → Store X Φ → Store X Φ
  put_job job s = record s { jobs = insert job.id job s.jobs }

  -- the first section of `LaunchJob`; the epoch says which job the caller's pointer is to
  unfoldable pub launch_create : ℕ → ℕ → X → Exec StoreError (Store X Φ) (ℕ × Timer Φ)
  unfolding put_job next
  launch_create now template_id extra_vars = do
    found ← gets (λ s. lookup template_id s.templates)
    t ← or_raise found (template_not_found template_id)
    id ← gets (λ s. s.next_job_id)
    epoch ← gets (λ s. s.epoch)
    modify (
        put_job (record {
          id = id;
          job_template = template_id;
          status = pending;
          extra_vars = extra_vars;
          created = now;
          started = none;
          finished = none;
        }))
    modify (λ s. record s { next_job_id = next s.next_job_id })
    pure (
      epoch,
      record {
        delay = t.expected_duration_ms * 1000000 % 2 ^ 64;
        job_id = id;
        template_id = t.id;
        rate = t.failure_rate;
      },
    )

  unfoldable pub change_job : (Job X → Job X) → Option (Job X) → Store X Φ → Store X Φ
  unfolding put_job
  change_job f none s = s
  change_job f (some job) s = put_job (f job) s

  -- the second section, through the pointer to the job
  unfoldable pub launch_start : ℕ → ℕ → ℕ → Store X Φ → Store X Φ
  unfolding change_job
  launch_start now epoch id s =
      if epoch == s.epoch then change_job (started_job now) (lookup id s.jobs) s else s

  -- `LaunchJob` without anything between its sections
  unfoldable pub launch_job : ℕ → ℕ → X → Exec StoreError (Store X Φ) (Timer Φ)
  unfolding launch_create launch_start
  launch_job now template_id extra_vars = do
    (epoch, timer) ← launch_create now template_id extra_vars
    modify (launch_start now epoch timer.job_id)
    pure timer

  -- `completeJob`, where `draw` says of a rate whether `rand.Float64()` is less than it
  unfoldable pub complete_job :
      ℕ → (Φ → Bool) → ℕ → ℕ → Φ → Store X Φ → Option (Notice X) × Store X Φ
  unfolding put_job notice
  complete_job now draw job_id template_id failure_rate s = elim (lookup job_id s.jobs) [
    | none ↦ (none, s)
    | some job ↦
        let done = completed now (draw failure_rate) job in
        if is_running job.status
        then (notice s.callback now done job_id template_id, put_job done s)
        else (none, s)
  ]

  unfoldable pub get_job : ℕ → Exec StoreError (Store X Φ) (Job X)
  get_job id = do job ← gets (λ s. lookup id s.jobs); or_raise job (job_not_found id)

  unfoldable pub cancel_job : ℕ → ℕ → Exec StoreError (Store X Φ) (Job X)
  unfolding put_job
  cancel_job now id = do
    found ← gets (λ s. lookup id s.jobs)
    job ← or_raise found (job_not_found id)
    raise_if (not (is_open job.status)) (cannot_cancel id job.status)
    modify (put_job (canceled_job now job))
    pure (canceled_job now job)

  unfoldable pub set_callback : CallbackConfig → Store X Φ → Store X Φ
  set_callback cfg s = record s { callback = cfg }

  unfoldable pub get_callback : Store X Φ → CallbackConfig
  get_callback s = s.callback

  unfoldable pub get_stats : Store X Φ → JobStats
  get_stats s = count_jobs s.jobs

  unfoldable pub reset : Store X Φ → Store X Φ
  unfolding new_store
  reset s = record new_store { epoch = s.epoch + 1 }
