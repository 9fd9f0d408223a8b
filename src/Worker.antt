-- ===== src/Worker.antt =====
-- apps/worker/src/main.ts: the job that analyses a prompt, and the dispatch of the
-- outbox. The instants of a run are arguments; the AI providers and what they
-- answer, the queue and Redis are parameters. Logging is left out, and so is the cache of provider
-- objects, which holds what `provider` would build again.
mod Job
pub mod Process
pub mod Running
pub mod Dispatch
pub mod Lifecycle
mod Tests
pub use Job.*
use promptlens_v.Prelude.{
  ℕ, String, Bool, true, false, not, ◌&&◌, ◌||◌, Option, none, some, List, [], ◌∷◌, ◌+◌, ◌-◌, ◌*◌,
  ◌==◌, ℕ_eq, String_eq, ltb, leb, if◌then◌else◌, is_some, is_none,
}
use promptlens_v.Store.{
  Prisma, Error, Tx, Result, ok, err, ◌>>=◌, ◌>>◌, pure, update_many, update, create, delete,
  delete_many,
}
use promptlens_v.Schema.{
  Db, Analysis, Prompt, PromptVersion, Tenant, UsageRecord, OutboxEvent, AnalysisStatus,
  PromptVersionKind,
}
use promptlens_v.Schema.Tables.{analyses, prompt_versions, usage, outbox, prompts, tenants}
use promptlens_v.Schema.Enums.{is_queued, is_failed, is_completed}
use promptlens_v.Analysis.{
  AnalysisControlStore, AnalysisControlOptions, AnalysisControlError, AnalysisProvider,
  AnalysisResult, Analyzed, Thrown, ProviderCode, ClassifiedAnalysisError, answer, thrown, enforce,
  record_provider_failure, classify_analysis_error, calculate_score,
}

module _ (db : Prisma) {K : Type 0} (store : AnalysisControlStore K) (setup : Setup) where
  pub complete : AnalysisJobData → AnalysisProvider → AnalysisResult → Times → Tx Db (Unit {0})
  complete job p result times = do
    update db analyses (λ a. a.id == job.analysis_id) (completed p result times.completed_at)
    create db prompt_versions version_clash (improved job result times)
    create db usage no_clash (usage_of job p result times)

  -- The tokens of the usage records of a workspace since an instant.
  abbrev consumed_tokens : Db → (tenant_id month_start : ℕ) → ℕ
  consumed_tokens s tenant_id month_start =
      let since = λ (u : UsageRecord). u.tenant_id == tenant_id && leb month_start u.created_at in
      db.aggregate_sum since (λ u. u.input_tokens) s.usage
      + db.aggregate_sum since (λ u. u.output_tokens) s.usage

  abbrev pub controls : Db → AnalysisControlOptions
  controls s = record {
    requests_per_minute = setup.requests_per_minute;
    failure_threshold = setup.failure_threshold;
    consumed_tokens = consumed_tokens s;
  }

  -- The end of the transaction that stores an answer.
  abbrev stored : Result (Unit {0}) → Option Failure
  stored (ok _) = none
  stored (err e) = some (Failure.provider_failure (setup.shown e))

  -- The body of the `try`: what it throws, if anything.
  pub analyzed :
      AnalysisJobData → AnalysisProvider → Analyzed → Times → System K → Option Failure × System K
  analyzed job p (thrown t) times s = (some (Failure.provider_failure t), s)
  analyzed job p (answer result) times s =
      let r = db.transaction (complete job p result times) s.database in
      (stored r.0, record s { database = r.1 })

  pub attempt :
      AnalysisJobData
      → AnalysisProvider
      → (content : String) (budget : ℕ) → Times
      → System K
      → Option Failure × System K
  attempt job p content budget times s =
      let r =
        enforce store (controls s.database) job.tenant_id p.name budget times.admitted_at s.redis in
      elim r.0 [
        | some e ↦ (some (Failure.control e), record s { redis = r.1 })
        | none ↦ analyzed job p (p.analyze content) times (record s { redis = r.1 })
      ]

  pub error_code : Failure → String
  error_code (Failure.control e) = control_code e
  error_code (Failure.provider_failure t) =
      provider_code (classify_analysis_error setup.matches t).code

  -- What is thrown on, once the failure is stored.
  pub give_up : Failure → JobEnd
  give_up (Failure.control e) =
      if is_budget e
      then JobEnd.unrecoverable (control_code e)
      else JobEnd.rethrown (Failure.control e)
  give_up (Failure.provider_failure t) =
      let c = classify_analysis_error setup.matches t in
      if not c.retryable
      then JobEnd.unrecoverable (provider_code c.code)
      else JobEnd.rethrown (Failure.provider_failure t)

  abbrev counted_failure : Failure → AnalysisProvider → Times → System K → K
  counted_failure (Failure.control e) p times s = s.redis
  counted_failure (Failure.provider_failure t) p times s =
      record_provider_failure store (controls s.database) p.name times.failed_at s.redis

  -- What the `catch` throws on, once the failure is stored or its storing failed.
  abbrev pub mark_end :
      Failure → AnalysisProvider → Times → System K → Result (Unit {0}) × Db → JobEnd × System K
  mark_end f p times s (err e, s') =
      (JobEnd.rethrown (Failure.provider_failure (setup.shown e)), record s { database = s' })
  mark_end f p times s (ok _, s') =
      (give_up f, record { database = s'; redis = counted_failure f p times s })

  -- The write of the `catch`, which the database may refuse.
  abbrev pub marking :
      AnalysisJobData → Failure → (mark_error : Option Error) → Db → Result (Unit {0}) × Db
  marking job f (some e) s = (err e, s)
  marking job f none s =
      db.transaction (update db analyses (λ a. a.id == job.analysis_id) (marked (error_code f))) s

  -- The `catch`.
  pub recover :
      AnalysisJobData → AnalysisProvider → Times → Option Failure × System K → JobEnd × System K
  recover job p times (none, s) = (JobEnd.returned, s)
  recover job p times (some f, s) = mark_end f p times s (marking job f times.mark_error s.database)

  -- The run of a job after its claim: `if (claimed.count !== 1) return;` and the `try`.
  abbrev pub claim_end :
      AnalysisJobData
      → AnalysisProvider
      → (content : String) (budget : ℕ) → Times
      → System K
      → Result ℕ × Db
      → JobEnd × System K
  claim_end job p content budget times s (err e, s') =
      (JobEnd.rethrown (Failure.provider_failure (setup.shown e)), record s { database = s' })
  claim_end job p content budget times s (ok n, s') =
      let s1 = record s { database = s' } in
      let done = recover job p times (attempt job p content budget times s1) in
      if n == 1 then done else (JobEnd.returned, s1)

  pub run :
      AnalysisJobData
      → AnalysisProvider
      → (content : String) (budget : ℕ) → Times
      → System K
      → JobEnd × System K
  run job p content budget times s = claim_end job p content budget times s (
      db.transaction
        (update_many db analyses (claimable job.analysis_id) (claimed times.claimed_at)) s.database)

  pub process_analysis : AnalysisJobData → Times → System K → JobEnd × System K
  process_analysis job times s = elim (db.find_first (wanted job) s.database.analyses) [
    | none ↦ (JobEnd.analysis_missing, s)
    | some work ↦ elim (db.find_first (λ x. x.id == work.prompt_id) s.database.prompts) [
      | none ↦ (JobEnd.prompt_missing, s)
      | some prompt ↦ elim (db.find_first (λ t. t.id == job.tenant_id) s.database.tenants) [
        | none ↦ (JobEnd.tenant_missing, s)
        | some tenant ↦ elim (provider setup tenant.ai_provider tenant.ai_model) [
          | none ↦ (JobEnd.key_missing, s)
          | some p ↦
              if is_completed work.status
              then (JobEnd.returned, s)
              else run job p prompt.content tenant.ai_monthly_token_budget times s
        ]
      ]
    ]
  ]
