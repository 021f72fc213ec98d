-- ===== src/Tests/Playbooks.antt =====
-- The jobs of awx-sim on concrete data: no variables, and rates in percent.
use cirrus_sim.Base.{refl, ℕ, [], ◌∷◌, arith, nat_eq, List, Option, ◌≡◌, none, some, ltb, false}
use cirrus_sim.Awx.Types.{running, failed, Job, Store, Status, no_callback, is_open}
use cirrus_sim.Awx.Store.{complete_job, new_store}
use cirrus_sim.Awx.Jobs.{
  complete, cancel, create, launch, start, Op, run, cancel, create, launch, start,
}
use cirrus_sim.Awx.Runs.{IsValid, run-IsValid}
use cirrus_sim.Awx.Finals.{run-final, run_completes}
use cirrus_sim.Base.Dict.{lookup}

abbrev fresh_store : Store ℕ ℕ
unfolding new_store
fresh_store = new_store

fresh_store-IsValid : IsValid fresh_store
unfolding new_store lookup
fresh_store-IsValid id job e = ground arith

abbrev operations : List (Op ℕ ℕ)
operations =
    create "deploy" "" 5000 30
    ∷ launch 10 1 0
    ∷ launch 11 1 0
    ∷ start 12 0 2
    ∷ start 13 0 1
    ∷ cancel 14 2
    ∷ []

run-IsValid_example : IsValid (run operations fresh_store)
run-IsValid_example = run-IsValid operations fresh_store fresh_store-IsValid

abbrev job : Status → Option ℕ → Job ℕ
job status finished = record {
  id = 1;
  job_template = 1;
  status = status;
  extra_vars = 0;
  created = 10;
  started = some 11;
  finished = finished;
}

abbrev store : Status → Option ℕ → Store ℕ ℕ
store status finished = record {
  templates = [];
  jobs = (1, job status finished) ∷ [];
  next_template_id = 2;
  next_job_id = 2;
  callback = no_callback;
  epoch = 0;
}

done-IsValid : IsValid (store failed (some 12))
unfolding lookup
done-IsValid id j e = ground arith

running-IsValid : IsValid (store running none)
unfolding lookup
running-IsValid id j e = ground arith

abbrev later : List (Op ℕ ℕ)
later = cancel 14 1 ∷ complete 15 (λ r. ltb 20 r) 1 1 30 ∷ start 16 0 1 ∷ []

there : (s : Status) (f : Option ℕ) → lookup 1 (store s f).jobs ≡ some (job s f)
unfolding lookup
there s f = refl

run-final_example : lookup 1 (run later (store failed (some 12))).jobs ≡ some (job failed (some 12))
run-final_example =
    run-final later (store failed (some 12)) 1 (job failed (some 12)) refl done-IsValid
      (omega arith) (omega arith) (there failed (some 12)) refl

run_completes_example :
    (job' : Job ℕ) × (lookup 1
        (complete_job 20 (λ r. ltb 20 r) 1 1 30 (run later (store running none))).1.jobs
      ≡ some job')
    × (is_open job'.status ≡ false)
run_completes_example =
    run_completes later (store running none) 1 (job running none) 20 (λ r. ltb 20 r) 1 30 refl
      running-IsValid (omega arith) (omega arith) (there running none) refl
