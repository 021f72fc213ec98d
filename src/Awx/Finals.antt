-- ===== src/Awx/Finals.antt =====
-- How the jobs of awx-sim/internal/state/store.go end.
use cirrus_sim.Base.{
  refl, ℕ, arith, [], ◌∷◌, ◌≤◌, List, ◌+◌, Bool, ◌≡◌, Option, some, false, none, ◌||◌, ◌<◌, ◌^◌,
  length, nat_eq, Option-cases, inl, ◌∙◌, ap, inr, Bool-cases, true,
}
use cirrus_sim.Base.Dict.{lookup-insert_self, lookup, Dict}
use cirrus_sim.Awx.Types.{
  Job, Store, next, started_job, is_open, is_running, JobStats, count_jobs, completed,
}
use cirrus_sim.Awx.Store.{
  put_job, create_template, launch_create, launch_start, complete_job, cancel_job, set_callback,
  change_job, get_stats,
}
use cirrus_sim.Awx.Jobs.{
  Op, step, run, Follows, step-Kept, launch, create, configure, clear, cancel, complete, start,
  is_clear, complete_job-missing, complete_job-over, complete_job-running, is_started,
}
use cirrus_sim.Awx.Runs.{IsValid, step-IsValid, run-IsValid}

abbrev pub has_clear : {X Φ : Type 0} → List (Op X Φ) → Bool
has_clear [] = false
has_clear (op ∷ ops) = is_clear op || has_clear ops

abbrev pub all_jobs : JobStats → ℕ
all_jobs n = n.pending_jobs + n.running_jobs + n.successful_jobs + n.failed_jobs + n.canceled_jobs

count_jobs-total : {X : Type 0} (jobs : Dict ℕ (Job X)) → all_jobs (count_jobs jobs) ≡ length jobs
count_jobs-total [] = refl
count_jobs-total ((id, job) ∷ jobs) = ground (arith, count_jobs-total jobs)

module _ {X Φ : Type 0} where
  abbrev Grows : Store X Φ → Store X Φ → Type 0
  Grows s t = (s.next_job_id ≤ t.next_job_id) × (t.next_job_id ≤ s.next_job_id + 1)

  change_job-Grows :
      (f : Job X → Job X) (o : Option (Job X)) (s : Store X Φ) → Grows s (change_job f o s)
  unfolding change_job put_job
  change_job-Grows f none s = omega arith
  change_job-Grows f (some job) s = omega arith

  complete_job-Grows :
      (now : ℕ) (draw : Φ → Bool) (j t : ℕ) (rate : Φ) (s : Store X Φ)
      → Grows s (complete_job now draw j t rate s).1
  unfolding put_job
  complete_job-Grows now draw j t rate s = elim (Option-cases (lookup j s.jobs)) [
    | inl missing ↦ rw (complete_job-missing now draw j t rate s missing) (omega arith)
    | inr (old, found) ↦ elim (Bool-cases (is_running old.status)) [
      | inr over ↦ rw (complete_job-over now draw j t rate s old found over) (omega arith)
      | inl runs ↦ rw (complete_job-running now draw j t rate s old found runs) (omega arith)
    ]
  ]

  step-Grows :
      (op : Op X Φ) (s : Store X Φ)
      → is_clear op ≡ false
      → s.next_job_id + 1 < 2 ^ 64
      → Grows s (step op s)
  unfolding step create_template launch_create launch_start cancel_job set_callback put_job next
  step-Grows (create name description ms rate) s c h = ground arith
  step-Grows (launch now t vars) s c h = ground arith
  step-Grows (start now epoch j) s c h =
      ground (arith, change_job-Grows (started_job now) (lookup j s.jobs) s)
  step-Grows (complete now draw j t rate) s c h = complete_job-Grows now draw j t rate s
  step-Grows (cancel now j) s c h = ground arith
  step-Grows (configure cfg) s c h = ground arith
  step-Grows clear s c h = ground arith

  -- What every step keeps of a job, a run without a reset keeps.
  run_induct :
      (Q : Job X → Type 0)
      → ((job job' : Job X) → Q job → Follows job job' → Q job')
      → (ops : List (Op X Φ)) (s : Store X Φ) (id : ℕ) (job : Job X) → has_clear ops ≡ false
      → IsValid s
      → id < s.next_job_id
      → s.next_job_id + length ops < 2 ^ 64
      → lookup id s.jobs ≡ some job
      → Q job
      → (job' : Job X) × (lookup id (run ops s).jobs ≡ some job') × Q job'
  unfolding run
  run_induct Q keep [] s id job c v fresh h e q = (job, e, q)
  run_induct Q keep (op ∷ ops) s id job c v fresh h e q =
      let (job', e', f) =
        step-Kept op s id job (ground arith) (λ j k x. (v j k x).0) (omega arith) e in
      let grows = step-Grows op s (ground arith) (omega arith) in
      run_induct Q keep ops (step op s) id job' (ground arith) (step-IsValid op s v)
        (omega (arith, grows)) (omega (arith, grows)) e' (keep job job' q f)

  -- A job whose status is final stays as it is, whatever comes but a reset, as long as the IDs stay
  -- below 2 ^ 64.
  pub run-final :
      (ops : List (Op X Φ)) (s : Store X Φ) (id : ℕ) (job : Job X)
      → has_clear ops ≡ false
      → IsValid s
      → id < s.next_job_id
      → s.next_job_id + length ops < 2 ^ 64
      → lookup id s.jobs ≡ some job
      → is_open job.status ≡ false
      → lookup id (run ops s).jobs ≡ some job
  run-final ops s id job c v fresh h e final =
      let (job', e', q) =
        run_induct (λ j. j ≡ job) (λ j j' q f. ground arith) ops s id job c v fresh h e refl in
      e' ∙ ap some q

  complete_job-final :
      (now : ℕ) (draw : Φ → Bool) (id t : ℕ) (rate : Φ) (s : Store X Φ) (job : Job X)
      → IsValid s
      → lookup id s.jobs ≡ some job
      → is_started job.status ≡ true
      → (job' : Job X) × (lookup id (complete_job now draw id t rate s).1.jobs ≡ some job')
        × (is_open job'.status ≡ false)
  unfolding put_job
  complete_job-final now draw id t rate s job v e started =
      elim (Bool-cases (is_running job.status)) [
        | inr over ↦ (
          job,
          rw (complete_job-over now draw id t rate s job e over) e,
          ground (arith, over, started),
        )
        | inl runs ↦ (
          completed now (draw rate) job,
          rw (complete_job-running now draw id t rate s job e runs) (
              ground (
                arith,
                (v id job e).0,
                lookup-insert_self id (completed now (draw rate) job) s.jobs,
              )),
          ground arith,
        )
      ]

  -- A job that has started is in a final status when its timer has fired, whatever came between, a
  -- cancellation included, but a reset, as long as the IDs stay below 2 ^ 64.
  pub run_completes :
      (ops : List (Op X Φ)) (s : Store X Φ) (id : ℕ) (job : Job X) (now : ℕ) (draw : Φ → Bool)
      (t : ℕ) (rate : Φ)
      → has_clear ops ≡ false
      → IsValid s
      → id < s.next_job_id
      → s.next_job_id + length ops < 2 ^ 64
      → lookup id s.jobs ≡ some job
      → is_started job.status ≡ true
      → (job' : Job X) × (lookup id (complete_job now draw id t rate (run ops s)).1.jobs
          ≡ some job')
        × (is_open job'.status ≡ false)
  run_completes ops s id job now draw t rate c v fresh h e started =
      let (job', e', q) =
        run_induct (λ j. is_started j.status ≡ true) (λ j j' q f. ground arith) ops s id job c v
          fresh h e started in
      complete_job-final now draw id t rate (run ops s) job' (run-IsValid ops s v) e' q

  -- Every job is counted once in the statistics.
  pub get_stats-total : (s : Store X Φ) → all_jobs (get_stats s) ≡ length s.jobs
  unfolding get_stats
  get_stats-total s = count_jobs-total s.jobs
