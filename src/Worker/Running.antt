-- ===== src/Worker/Running.antt =====
-- Which runs of the analysis job start, and that none of them leaves its row running.
use promptlens_v.Prelude.{
  ℕ, ◌≡◌, ◌≢◌, refl, sym, ap, ◌∙◌, subst, Bool, true, none, some, List, [], ◌∷◌, arith, inl, inr,
  ◌⊎◌, any, count, change, In, In-change, change-In, ◌==◌, ℕ_eq, any_of_In, nat_eq_iff, ◌||◌,
  if◌then◌else◌,
}
use promptlens_v.Store.{Prisma}
use promptlens_v.Store.Single.{count_single, count_none, find_single}
use promptlens_v.Schema.{Db, Analysis, Prompt, Tenant, AnalysisStatus}
use promptlens_v.Schema.Enums.{is_queued, is_failed, is_completed}
use promptlens_v.Analysis.{AnalysisControlStore, AnalysisProvider}
use promptlens_v.Worker.{
  AnalysisJobData, Times, Setup, System, Failure, JobEnd, provider, wanted, claimable, claimed,
  completed, marked, claim_end, give_up, run, process_analysis,
}
use promptlens_v.Worker.Process.{named, claim_db, Settled, run_settles, claims}

-- The rows that a job names are there, each the only one with its id, and the provider that the
-- workspace chose can be built.
pub record Ready (setup : Setup) (job : AnalysisJobData) (s : Db) : Type 0 where
  pub analysis : Analysis
  pub prompt : Prompt
  pub tenant : Tenant
  pub chosen : AnalysisProvider
  pub one_analysis : count (named job.analysis_id) s.analyses ≡ 1
  pub has_analysis : In analysis s.analyses
  pub is_wanted : wanted job analysis ≡ true
  pub one_prompt : count (λ x. x.id == analysis.prompt_id) s.prompts ≡ 1
  pub has_prompt : In prompt s.prompts
  pub is_prompt : prompt.id ≡ analysis.prompt_id
  pub one_tenant : count (λ t. t.id == job.tenant_id) s.tenants ≡ 1
  pub has_tenant : In tenant s.tenants
  pub is_tenant : tenant.id ≡ job.tenant_id
  pub has_key : provider setup tenant.ai_provider tenant.ai_model ≡ some chosen

change_none :
    {R : Type 0} (p : R → Bool) (f : R → R) (rows : List R)
    → count p rows ≡ 0
    → change p f rows ≡ rows
change_none p f [] h = refl
change_none p f (x ∷ rows) h = ground (arith, change_none p f rows)

wanted_named :
    (job : AnalysisJobData) (a : Analysis) → wanted job a ≡ true → named job.analysis_id a ≡ true
wanted_named job a h = ground arith

claimable_named : (n : ℕ) (a : Analysis) → claimable n a ≡ true → named n a ≡ true
claimable_named n a h = ground arith

module _ (db : Prisma) {K : Type 0} (store : AnalysisControlStore K) (setup : Setup) where
  lookups :
      (job : AnalysisJobData) (times : Times) (s : System K) (r : Ready setup job s.database)
      → process_analysis db store setup job times s ≡ (
          if is_completed r.analysis.status
          then (JobEnd.returned, s)
          else run db store setup job r.chosen r.prompt.content r.tenant.ai_monthly_token_budget
              times s)
  unfolding process_analysis
  lookups job times s r = rw (process_analysis, work, prompt, tenant, r.has_key) refl
    where
      work : db.find_first (wanted job) s.database.analyses ≡ some r.analysis
      work =
          find_single db (named job.analysis_id) (wanted job) r.analysis s.database.analyses
            r.one_analysis (wanted_named job) r.has_analysis r.is_wanted

      prompt : db.find_first (λ x. x.id == r.analysis.prompt_id) s.database.prompts ≡ some r.prompt
      prompt =
          find_single db _ (λ x. x.id == r.analysis.prompt_id) r.prompt s.database.prompts
            r.one_prompt (λ x h. h) r.has_prompt ((nat_eq_iff _ _).1 r.is_prompt)

      tenant : db.find_first (λ t. t.id == job.tenant_id) s.database.tenants ≡ some r.tenant
      tenant =
          find_single db _ (λ t. t.id == job.tenant_id) r.tenant s.database.tenants r.one_tenant
            (λ x h. h) r.has_tenant ((nat_eq_iff _ _).1 r.is_tenant)

  there :
      (job : AnalysisJobData) (times : Times) (s : System K) (r : Ready setup job s.database)
      → any (named job.analysis_id) (claim_db job times s.database).analyses ≡ true
  there job times s r =
      any_of_In (named job.analysis_id)
        (if claimable job.analysis_id r.analysis
          then claimed times.claimed_at r.analysis
          else r.analysis)
        (claim_db job times s.database).analyses
        (change-In (claimable job.analysis_id) (claimed times.claimed_at) r.analysis
          s.database.analyses r.has_analysis)
        (ground (arith, wanted_named job r.analysis r.is_wanted))

  -- A job whose analysis is queued or failed, whose rows are there and unique and whose workspace has
  -- chosen a provider with a key, runs: either the answer of the provider is stored, with its score,
  -- one improved version of the prompt and one usage record, and the run returns; or, where the
  -- database takes the failure, the analysis is marked failed with the code of what was thrown,
  -- nothing else is written to the database, and the run throws.
  pub process_settles :
      (job : AnalysisJobData) (times : Times) (s : System K) (r : Ready setup job s.database)
      → is_queued r.analysis.status || is_failed r.analysis.status ≡ true
      → times.mark_error ≡ none
      → Settled db store setup job r.chosen r.prompt.content times s
          (process_analysis db store setup job times s)
  process_settles job times s r h stores =
      subst (Settled db store setup job r.chosen r.prompt.content times s)
        (sym (lookups job times s r ∙ open_run))
        (run_settles db store setup job r.chosen r.prompt.content r.tenant.ai_monthly_token_budget
          times s stores won (there job times s r))
    where
      open_run :
          (if is_completed r.analysis.status
            then (JobEnd.returned, s)
            else run db store setup job r.chosen r.prompt.content r.tenant.ai_monthly_token_budget
                times s)
          ≡ run db store setup job r.chosen r.prompt.content r.tenant.ai_monthly_token_budget times
              s
      open_run = ground arith

      won : count (claimable job.analysis_id) s.database.analyses ≡ 1
      won =
          count_single (named job.analysis_id) (claimable job.analysis_id) r.analysis
            s.database.analyses r.one_analysis (claimable_named job.analysis_id) r.has_analysis
            (ground (arith, wanted_named job r.analysis r.is_wanted))

  give_up_throws : (f : Failure) → give_up db store setup f ≢ JobEnd.returned
  unfolding give_up
  give_up_throws (Failure.control e) h = ground arith
  give_up_throws (Failure.provider_failure t) h = ground arith

  -- A run of a queued or failed analysis, whose rows are there and unique and whose workspace has
  -- chosen a provider with a key, does not leave the analysis running where the database takes a
  -- failure in the `catch`: the row is completed if the run returned, and failed if it threw.
  pub never_left_running :
      (job : AnalysisJobData) (times : Times) (s : System K) (r : Ready setup job s.database)
      (y : Analysis)
      → is_queued r.analysis.status || is_failed r.analysis.status ≡ true
      → times.mark_error ≡ none
      → In y (process_analysis db store setup job times s).1.database.analyses
      → y.id ≡ job.analysis_id
      → (((process_analysis db store setup job times s).0 ≡ JobEnd.returned)
          × (y.status ≡ AnalysisStatus.completed))
        ⊎ (((process_analysis db store setup job times s).0 ≢ JobEnd.returned)
            × (y.status ≡ AnalysisStatus.failed))
  never_left_running job times s r y h stores i e = elim (process_settles job times s r h stores) [
    | inl (result, _, back, after) ↦
        let (x, _, ex) =
          In-change (named job.analysis_id) (completed r.chosen result times.completed_at) y
            (claim_db job times s.database).analyses
            (subst (λ (d : Db). In y d.analyses) after i) in
        inl (back, ground (arith, nat_eq_iff x.id job.analysis_id))
    | inr (f, back, after) ↦
        let (x, _, ex) =
          In-change (named job.analysis_id) (marked _) y (claim_db job times s.database).analyses
            (subst (λ (d : Db). In y d.analyses) after i) in
        inr (λ q. give_up_throws f (sym back ∙ q), ground (arith, nat_eq_iff x.id job.analysis_id))
  ]

  -- A second delivery of a job changes nothing once its analysis is completed.
  pub completed_ignored :
      (job : AnalysisJobData) (times : Times) (s : System K) (r : Ready setup job s.database)
      → r.analysis.status ≡ AnalysisStatus.completed
      → process_analysis db store setup job times s ≡ (JobEnd.returned, s)
  completed_ignored job times s r h = lookups job times s r ∙ ground arith

  -- A job whose analysis is marked running, as a worker that died in its run leaves it, is dropped:
  -- the run returns, so the job counts as done, and the analysis stays running.
  pub running_dropped :
      (job : AnalysisJobData) (times : Times) (s : System K) (r : Ready setup job s.database)
      → r.analysis.status ≡ AnalysisStatus.running
      → process_analysis db store setup job times s ≡ (JobEnd.returned, s)
  unfolding run
  running_dropped job times s r h =
      lookups job times s r
      ∙ rw h (
          ap
            (claim_end db store setup job r.chosen r.prompt.content r.tenant.ai_monthly_token_budget
              times s)
            (claims db store setup job times s.database)
          ∙ ground (
            arith,
            lost,
            change_none (claimable job.analysis_id) (claimed times.claimed_at) s.database.analyses
                lost,
          ))
    where
      lost : count (claimable job.analysis_id) s.database.analyses ≡ 0
      lost =
          count_none (named job.analysis_id) (claimable job.analysis_id) r.analysis
            s.database.analyses r.one_analysis (claimable_named job.analysis_id) r.has_analysis
            (wanted_named job r.analysis r.is_wanted) (ground arith)
