-- ===== src/Awx/Runs.antt =====
-- Runs of the operations of awx-sim/internal/state/store.go.
use cirrus_sim.Base.{
  refl, ℕ, arith, [], ◌∷◌, List, Option-cases, ◌≡◌, Bool, true, some, inl, Bool-cases, not, nat_eq,
  inr, ◌==◌, is_some, ◌&&◌,
}
use cirrus_sim.Awx.Types.{
  Job, Store, pending, is_open, started_job, is_running, canceled_job, running, successful,
  completed, failed, canceled,
}
use cirrus_sim.Awx.Store.{
  put_job, create_template, launch_create, launch_start, complete_job, cancel_job, set_callback,
  reset, new_store, change_job,
}
use cirrus_sim.Awx.Jobs.{
  Op, step, run, create, complete_job-missing, launch, start, complete, complete_job-over,
  complete_job-running, cancel, configure, clear,
}
use cirrus_sim.Base.Dict.{lookup, lookup-insert}

-- A job has started unless it is pending or was canceled, and has finished where no status follows.
abbrev pub coherent : {X : Type 0} → Job X → Bool
coherent job = elim job.status [
  | pending ↦ not (is_some job.started) && not (is_some job.finished)
  | running ↦ is_some job.started && not (is_some job.finished)
  | successful ↦ is_some job.started && is_some job.finished
  | failed ↦ is_some job.started && is_some job.finished
  | canceled ↦ is_some job.finished
]

module _ {X Φ : Type 0} where
  -- every job is coherent and under its own ID
  abbrev pub IsValid : Store X Φ → Type 0
  IsValid s =
      (id : ℕ) (job : Job X) → lookup id s.jobs ≡ some job → (job.id ≡ id) × (coherent job ≡ true)

  put_job-IsValid :
      (s : Store X Φ) (new : Job X) → IsValid s → coherent new ≡ true → IsValid (put_job new s)
  unfolding put_job
  put_job-IsValid s new v c id job e = elim (Bool-cases (new.id == id)) [
    | inl same ↦ ground (arith, same, e, c, lookup-insert new.id id new s.jobs)
    | inr other ↦ v id job (ground (arith, other, e, lookup-insert new.id id new s.jobs))
  ]

  launch_start-IsValid :
      (now epoch j : ℕ) (s : Store X Φ) → IsValid s → IsValid (launch_start now epoch j s)
  unfolding launch_start change_job
  launch_start-IsValid now epoch j s v = elim (Bool-cases (epoch == s.epoch)) [
    | inr stale ↦ rw stale v
    | inl live ↦ elim (Option-cases (lookup j s.jobs)) [
      | inl missing ↦ rw (live, missing) v
      | inr (old, found) ↦
          rw (live, found)
            (put_job-IsValid s (started_job now old) v (ground (arith, v j old found)))
    ]
  ]

  complete_job-IsValid :
      (now : ℕ) (draw : Φ → Bool) (j t : ℕ) (rate : Φ) (s : Store X Φ)
      → IsValid s
      → IsValid (complete_job now draw j t rate s).1
  complete_job-IsValid now draw j t rate s v = elim (Option-cases (lookup j s.jobs)) [
    | inl missing ↦ rw (complete_job-missing now draw j t rate s missing) v
    | inr (old, found) ↦ elim (Bool-cases (is_running old.status)) [
      | inr over ↦ rw (complete_job-over now draw j t rate s old found over) v
      | inl runs ↦ rw (complete_job-running now draw j t rate s old found runs) (
          put_job-IsValid s (completed now (draw rate) old) v (ground (arith, v j old found, runs)))
    ]
  ]

  cancel_job-IsValid : (now j : ℕ) (s : Store X Φ) → IsValid s → IsValid (cancel_job now j s).1
  unfolding cancel_job
  cancel_job-IsValid now j s v = elim (Option-cases (lookup j s.jobs)) [
    | inl missing ↦ rw missing v
    | inr (old, found) ↦ elim (Bool-cases (is_open old.status)) [
      | inr over ↦ rw (found, over) v
      | inl can ↦ rw (found, can) (put_job-IsValid s (canceled_job now old) v refl)
    ]
  ]

  launch_create-IsValid :
      (now t : ℕ) (vars : X) (s : Store X Φ) → IsValid s → IsValid (launch_create now t vars s).1
  unfolding launch_create
  launch_create-IsValid now t vars s v = elim (Option-cases (lookup t s.templates)) [
    | inl missing ↦ rw missing v
    | inr (found, is) ↦ rw is (put_job-IsValid s _ v refl)
  ]

  pub step-IsValid : (op : Op X Φ) (s : Store X Φ) → IsValid s → IsValid (step op s)
  unfolding step create_template set_callback reset new_store lookup
  step-IsValid (create name description ms rate) s v = λ id job e. v id job (ground arith)
  step-IsValid (launch now t vars) s v = launch_create-IsValid now t vars s v
  step-IsValid (start now epoch j) s v = launch_start-IsValid now epoch j s v
  step-IsValid (complete now draw j t rate) s v = complete_job-IsValid now draw j t rate s v
  step-IsValid (cancel now j) s v = cancel_job-IsValid now j s v
  step-IsValid (configure cfg) s v = v
  step-IsValid clear s v = λ id job e. ground arith

  -- Whatever the operations and their order, sections of different launches in between and timers at
  -- any time included: from a valid store every job stays under its own ID, has started unless it
  -- is pending or canceled, and has finished exactly where its status is final.
  pub run-IsValid : (ops : List (Op X Φ)) (s : Store X Φ) → IsValid s → IsValid (run ops s)
  unfolding run
  run-IsValid [] s v = v
  run-IsValid (op ∷ ops) s v = run-IsValid ops (step op s) (step-IsValid op s v)
