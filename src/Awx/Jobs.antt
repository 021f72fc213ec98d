-- ===== src/Awx/Jobs.antt =====
-- The operations of awx-sim/internal/state/store.go as steps, and what one step does to a job.
use cirrus_sim.Base.{
  refl, refl, ℕ, arith, [], ◌∷◌, String, List, Bool, ◌≡◌, true, false, some, ◌⊎◌, nat_eq,
  Bool-cases, ◌==◌, inl, inr, Option-cases, ◌≢◌, string_eq, sym, ◌∙◌, none,
}
use cirrus_sim.Awx.Types.{
  Job, Status, CallbackConfig, Store, pending, running, canceled, successful, started_job, failed,
  is_running, is_open, completed, canceled_job,
}
use cirrus_sim.Awx.Store.{
  put_job, create_template, launch_create, launch_start, complete_job, cancel_job, set_callback,
  reset, change_job,
}
use cirrus_sim.Base.Dict.{lookup, lookup-insert, lookup-insert_ne}

-- One section under the mutex.
pub data Op (X Φ : Type 0) : Type 0 where
  create : String → String → ℕ → Φ → Op X Φ
  launch : (now template_id : ℕ) → X → Op X Φ
  start : (now epoch id : ℕ) → Op X Φ
  complete : (now : ℕ) → (Φ → Bool) → (job_id template_id : ℕ) → Φ → Op X Φ
  cancel : (now id : ℕ) → Op X Φ
  configure : CallbackConfig → Op X Φ
  clear : Op X Φ

-- the changes of status that there are
abbrev pub can_move : Status → Status → Bool
can_move pending running = true
can_move pending canceled = true
can_move running successful = true
can_move running failed = true
can_move running canceled = true
can_move _ _ = false

abbrev pub is_clear : {X Φ : Type 0} → Op X Φ → Bool
is_clear clear = true
is_clear op = false

abbrev pub is_started : Status → Bool
is_started pending = false
is_started s = true

-- `job'` is `job`, or `job` with a next status
abbrev pub Follows : {X : Type 0} → Job X → Job X → Type 0
Follows job job' = (job' ≡ job) ⊎ (can_move job.status job'.status ≡ true)

module _ {X Φ : Type 0} where
  unfoldable pub step : Op X Φ → Store X Φ → Store X Φ
  unfolding create_template launch_create launch_start complete_job cancel_job set_callback reset
  step (create name description ms rate) s = (create_template name description ms rate s).1
  step (launch now template_id vars) s = (launch_create now template_id vars s).1
  step (start now epoch id) s = launch_start now epoch id s
  step (complete now draw job_id template_id rate) s =
      (complete_job now draw job_id template_id rate s).1
  step (cancel now id) s = (cancel_job now id s).1
  step (configure cfg) s = set_callback cfg s
  step clear s = reset s

  unfoldable pub run : List (Op X Φ) → Store X Φ → Store X Φ
  unfolding step
  run [] s = s
  run (op ∷ ops) s = run ops (step op s)

  -- every job is under its own ID
  abbrev pub IsKeyed : Store X Φ → Type 0
  IsKeyed s = (id : ℕ) (job : Job X) → lookup id s.jobs ≡ some job → job.id ≡ id

  abbrev pub Kept : ℕ → Job X → Store X Φ → Type 0
  Kept id job s = (job' : Job X) × (lookup id s.jobs ≡ some job') × Follows job job'

  put_job-Kept :
      (s : Store X Φ) (id : ℕ) (job old new : Job X)
      → lookup id s.jobs ≡ some job
      → lookup new.id s.jobs ≡ some old
      → Follows old new
      → Kept id job (put_job new s)
  unfolding put_job
  put_job-Kept s id job old new e f moved = elim (Bool-cases (new.id == id)) [
    | inl same ↦ (
      new,
      ground (arith, same, lookup-insert new.id id new s.jobs),
      ground (arith, same, e, f, moved),
    )
    | inr other ↦ (job, ground (arith, other, e, lookup-insert new.id id new s.jobs), inl refl)
  ]

  launch_start-Kept :
      (now epoch j : ℕ) (s : Store X Φ) (id : ℕ) (job : Job X)
      → IsKeyed s
      → lookup id s.jobs ≡ some job
      → Kept id job (launch_start now epoch j s)
  unfolding launch_start change_job
  launch_start-Kept now epoch j s id job keyed e = elim (Bool-cases (epoch == s.epoch)) [
    | inr stale ↦ rw stale (job, e, inl refl)
    | inl live ↦ elim (Option-cases (lookup j s.jobs)) [
      | inl missing ↦ rw (live, missing) (job, e, inl refl)
      | inr (old, found) ↦
          rw (live, found)
            (put_job-Kept s id job old (started_job now old) e (ground (arith, keyed j old found))
              (ground arith))
    ]
  ]

  pub complete_job-missing :
      (now : ℕ) (draw : Φ → Bool) (j t : ℕ) (rate : Φ) (s : Store X Φ)
      → lookup j s.jobs ≡ none
      → (complete_job now draw j t rate s).1 ≡ s
  unfolding complete_job
  complete_job-missing now draw j t rate s missing = ground (arith, missing)

  pub complete_job-over :
      (now : ℕ) (draw : Φ → Bool) (j t : ℕ) (rate : Φ) (s : Store X Φ) (old : Job X)
      → lookup j s.jobs ≡ some old
      → is_running old.status ≡ false
      → (complete_job now draw j t rate s).1 ≡ s
  unfolding complete_job
  complete_job-over now draw j t rate s old found over = ground (arith, found, over)

  pub complete_job-running :
      (now : ℕ) (draw : Φ → Bool) (j t : ℕ) (rate : Φ) (s : Store X Φ) (old : Job X)
      → lookup j s.jobs ≡ some old
      → is_running old.status ≡ true
      → (complete_job now draw j t rate s).1 ≡ put_job (completed now (draw rate) old) s
  unfolding complete_job
  complete_job-running now draw j t rate s old found runs = ground (arith, found, runs)

  complete_job-Kept :
      (now : ℕ) (draw : Φ → Bool) (j t : ℕ) (rate : Φ) (s : Store X Φ) (id : ℕ) (job : Job X)
      → IsKeyed s
      → lookup id s.jobs ≡ some job
      → Kept id job (complete_job now draw j t rate s).1
  unfolding complete_job
  complete_job-Kept now draw j t rate s id job keyed e = elim (Option-cases (lookup j s.jobs)) [
    | inl missing ↦ (job, ground (arith, missing, e), inl refl)
    | inr (old, found) ↦ elim (Bool-cases (is_running old.status)) [
      | inr over ↦ (job, ground (arith, found, over, e), inl refl)
      | inl runs ↦ rw (complete_job-running now draw j t rate s old found runs) (
          put_job-Kept s id job old (completed now (draw rate) old) e
            (ground (arith, keyed j old found)) (ground (arith, runs)))
    ]
  ]

  cancel_job-Kept :
      (now j : ℕ) (s : Store X Φ) (id : ℕ) (job : Job X)
      → IsKeyed s
      → lookup id s.jobs ≡ some job
      → Kept id job (cancel_job now j s).1
  unfolding cancel_job
  cancel_job-Kept now j s id job keyed e = elim (Option-cases (lookup j s.jobs)) [
    | inl missing ↦ rw missing (job, e, inl refl)
    | inr (old, found) ↦ elim (Bool-cases (is_open old.status)) [
      | inr over ↦ rw (found, over) (job, e, inl refl)
      | inl can ↦
          rw (found, can)
            (put_job-Kept s id job old (canceled_job now old) e (ground (arith, keyed j old found))
              (ground (arith, can)))
    ]
  ]

  launch_create-Kept :
      (now t : ℕ) (vars : X) (s : Store X Φ) (id : ℕ) (job : Job X)
      → id ≢ s.next_job_id
      → lookup id s.jobs ≡ some job
      → Kept id job (launch_create now t vars s).1
  unfolding launch_create put_job
  launch_create-Kept now t vars s id job other e = elim (Option-cases (lookup t s.templates)) [
    | inl missing ↦ rw missing (job, e, inl refl)
    | inr (found, is) ↦
        rw is (job, lookup-insert_ne s.next_job_id id _ s.jobs (λ p. other (sym p)) ∙ e, inl refl)
  ]

  -- Whatever comes but a reset, a job that is there stays, as it is or with a next status, where
  -- every job is under its own ID and the next ID is not its own.
  pub step-Kept :
      (op : Op X Φ) (s : Store X Φ) (id : ℕ) (job : Job X)
      → is_clear op ≡ false
      → IsKeyed s
      → id ≢ s.next_job_id
      → lookup id s.jobs ≡ some job
      → Kept id job (step op s)
  unfolding step create_template set_callback
  step-Kept (create name description ms rate) s id job c keyed new e =
      (job, ground (arith, e), inl refl)
  step-Kept (launch now t vars) s id job c keyed new e =
      launch_create-Kept now t vars s id job new e
  step-Kept (start now epoch j) s id job c keyed new e =
      launch_start-Kept now epoch j s id job keyed e
  step-Kept (complete now draw j t rate) s id job c keyed new e =
      complete_job-Kept now draw j t rate s id job keyed e
  step-Kept (cancel now j) s id job c keyed new e = cancel_job-Kept now j s id job keyed e
  step-Kept (configure cfg) s id job c keyed new e = (job, e, inl refl)
  step-Kept clear s id job c keyed new e = ground arith
