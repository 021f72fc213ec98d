-- ===== src/Awx/Types.antt =====
-- awx-sim/internal/state/store.go: the types, and what happens to one job. A time is a number, the
-- variables of a job are of any type `X`, and a rate is of any type `Φ`.
use cirrus_sim.Base.{
  ℕ, [], ◌∷◌, ◌+◌, Option, some, Bool, false, String, true, if◌then◌else◌, ◌%◌, ◌&&◌, ◌^◌, not,
  ◌==◌, none, string_eq,
}
use cirrus_sim.Base.Dict.{Dict}

-- the five texts of the field `Status`
pub data Status : Type 0 where
  pending running successful failed canceled : Status

pub record JobTemplate (Φ : Type 0) : Type 0 where
  pub id : ℕ
  pub name : String
  pub description : String
  pub expected_duration_ms : ℕ
  pub failure_rate : Φ

pub record Job (X : Type 0) : Type 0 where
  pub id : ℕ
  pub job_template : ℕ
  pub status : Status
  pub extra_vars : X
  pub created : ℕ
  pub started : Option ℕ
  pub finished : Option ℕ

pub record CallbackConfig : Type 0 where
  pub enabled : Bool
  pub callback_url : String
  pub auth_token : String

abbrev pub no_callback : CallbackConfig
no_callback = record { enabled = false; callback_url = ""; auth_token = "" }

-- The store less its mutex, HTTP client and timers: a timer is a call of `complete_job`, at any time.
-- `epoch` counts the resets: a pointer to a job is to one of the map `jobs` as long as none came.
pub record Store (X Φ : Type 0) : Type 0 where
  pub templates : Dict ℕ (JobTemplate Φ)
  pub jobs : Dict ℕ (Job X)
  pub next_template_id : ℕ
  pub next_job_id : ℕ
  pub callback : CallbackConfig
  pub epoch : ℕ

pub data StoreError : Type 0 where
  name_required : StoreError
  template_not_found : ℕ → StoreError
  job_not_found : ℕ → StoreError
  cannot_cancel : ℕ → Status → StoreError

-- `Stats`
pub record JobStats : Type 0 where
  pub pending_jobs : ℕ
  pub running_jobs : ℕ
  pub successful_jobs : ℕ
  pub failed_jobs : ℕ
  pub canceled_jobs : ℕ

-- the timer that `LaunchJob` starts: after `delay` nanoseconds it completes the job
pub record Timer (Φ : Type 0) : Type 0 where
  pub delay : ℕ
  pub job_id : ℕ
  pub template_id : ℕ
  pub rate : Φ

-- what `sendCallback` posts
pub record Notice (X : Type 0) : Type 0 where
  pub url : String
  pub token : String
  pub job_id : ℕ
  pub job_template_id : ℕ
  pub status : Status
  pub extra_vars : X
  pub finished : ℕ

-- `n++` on an `int64`
unfoldable pub next : ℕ → ℕ
next n = (n + 1) % 2 ^ 64

abbrev pub is_running : Status → Bool
is_running running = true
is_running s = false

abbrev pub is_open : Status → Bool
is_open pending = true
is_open running = true
is_open s = false

abbrev pub no_stats : JobStats
no_stats = record {
  pending_jobs = 0;
  running_jobs = 0;
  successful_jobs = 0;
  failed_jobs = 0;
  canceled_jobs = 0;
}

abbrev pub count_job : Status → JobStats → JobStats
count_job pending n = record n { pending_jobs = n.pending_jobs + 1 }
count_job running n = record n { running_jobs = n.running_jobs + 1 }
count_job successful n = record n { successful_jobs = n.successful_jobs + 1 }
count_job failed n = record n { failed_jobs = n.failed_jobs + 1 }
count_job canceled n = record n { canceled_jobs = n.canceled_jobs + 1 }

module _ {X : Type 0} where
  abbrev pub started_job : ℕ → Job X → Job X
  started_job now job = elim job.status [
    | pending ↦ record job { status = running; started = some now }
    | other ↦ job
  ]

  abbrev pub completed : ℕ → Bool → Job X → Job X
  completed now fails job = record job {
    status = if fails then failed else successful;
    finished = some now;
  }

  unfoldable pub notice : CallbackConfig → ℕ → Job X → ℕ → ℕ → Option (Notice X)
  notice cb now job job_id template_id =
      if cb.enabled && not (cb.callback_url == "")
      then some (record {
        url = cb.callback_url;
        token = cb.auth_token;
        job_id = job_id;
        job_template_id = template_id;
        status = job.status;
        extra_vars = job.extra_vars;
        finished = now;
      })
      else none

  abbrev pub canceled_job : ℕ → Job X → Job X
  canceled_job now job = record job { status = canceled; finished = some now }

  abbrev pub count_jobs : Dict ℕ (Job X) → JobStats
  count_jobs [] = no_stats
  count_jobs ((_, job) ∷ jobs) = count_job job.status (count_jobs jobs)
