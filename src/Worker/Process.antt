-- ===== src/Worker/Process.antt =====
-- What a run of the analysis job makes of the row that it claims.
use promptlens_v.Prelude.{
  ℕ, String, ◌≡◌, refl, sym, ap, ◌∙◌, subst, Bool, true, Option, none, some, [], ◌∷◌, ◌++◌, arith,
  inl, inr, ◌⊎◌, any, count, change, ◌==◌, ℕ_eq, Option-cases,
}
use promptlens_v.Store.{
  Prisma, ok, err, Error, Result-cases, insert, modify, commit, update, update_many,
}
use promptlens_v.Schema.{Db, Analysis}
use promptlens_v.Schema.Tables.{analyses}
use promptlens_v.Analysis.{
  AnalysisControlStore, AnalysisControlError, AnalysisProvider, AnalysisResult, Analyzed, answer,
  thrown, enforce,
}
use promptlens_v.Worker.{
  AnalysisJobData, Times, Setup, System, Failure, JobEnd, claimable, claimed, completed, marked,
  improved, usage_of, version_clash, no_clash, complete, controls, analyzed, attempt, error_code,
  give_up, mark_end, marking, claim_end, recover, run,
}

abbrev pub named : (analysis_id : ℕ) → Analysis → Bool
named analysis_id a = a.id == analysis_id

-- The database after a claim, after an answer is stored and after a failure is.
abbrev pub claim_db : AnalysisJobData → Times → Db → Db
claim_db job times s = record s {
  analyses = change (claimable job.analysis_id) (claimed times.claimed_at) s.analyses;
}

abbrev pub done_db : AnalysisJobData → AnalysisProvider → AnalysisResult → Times → Db → Db
done_db job p result times s = record s {
  analyses = change (named job.analysis_id) (completed p result times.completed_at) s.analyses;
  prompt_versions = s.prompt_versions ++ improved job result times ∷ [];
  usage = s.usage ++ usage_of job p result times ∷ [];
}

abbrev pub failed_db : AnalysisJobData → (code : String) → Db → Db
failed_db job code s = record s {
  analyses = change (named job.analysis_id) (marked code) s.analyses;
}

module _ (db : Prisma) {K : Type 0} (store : AnalysisControlStore K) (setup : Setup) where
  complete_inv :
      (job : AnalysisJobData) (p : AnalysisProvider) (result : AnalysisResult) (times : Times)
      (s s' : Db)
      → complete db store setup job p result times s ≡ ok (tt, s')
      → s' ≡ done_db job p result times s
  unfolding complete
  complete_inv job p result times s s' h = ground (arith, updates, versions, uses)
    where
      updates :
          db.update (named job.analysis_id) (completed p result times.completed_at) s.analyses
          ≡ modify (named job.analysis_id) (completed p result times.completed_at) s.analyses
      updates = db.update_lem _ _ _

      versions :
          db.create version_clash (improved job result times) s.prompt_versions
          ≡ insert version_clash (improved job result times) s.prompt_versions
      versions = db.create_lem _ _ _

      uses :
          db.create no_clash (usage_of job p result times) s.usage
          ≡ insert no_clash (usage_of job p result times) s.usage
      uses = db.create_lem _ _ _

  complete_cases :
      (job : AnalysisJobData) (p : AnalysisProvider) (result : AnalysisResult) (times : Times)
      (s : Db)
      → let r = db.transaction (complete db store setup job p result times) s in
        (r ≡ (ok tt, done_db job p result times s)) ⊎ ((e : Error) × (r ≡ (err e, s)))
  complete_cases job p result times s =
      rw db.transaction_lem (elim (Result-cases (complete db store setup job p result times s)) [
        | inl ((tt, s'), e) ↦
            inl (ap (commit s) e ∙ ap (λ x. (ok tt, x)) (complete_inv job p result times s s' e))
        | inr (x, e) ↦ inr (x, ap (commit s) e)
      ])

  -- How the body of the `try` ends: the answer is stored, or something is thrown and nothing is.
  abbrev Tried :
      AnalysisJobData
      → AnalysisProvider
      → (content : String) → Times
      → System K
      → Option Failure × System K
      → Type 0
  Tried job p content times s r =
      ((result : AnalysisResult) × (p.analyze content ≡ answer result)
        × (r.0 ≡ none)
        × (r.1.database ≡ done_db job p result times s.database))
      ⊎ ((f : Failure) × (r.0 ≡ some f) × (r.1.database ≡ s.database))

  analyzed_cases :
      (job : AnalysisJobData) (p : AnalysisProvider) (content : String) (times : Times)
      (s : System K) (a : Analyzed)
      → p.analyze content ≡ a
      → Tried job p content times s (analyzed db store setup job p a times s)
  unfolding analyzed
  analyzed_cases job p content times s (thrown t) e = inr (Failure.provider_failure t, refl, refl)
  analyzed_cases job p content times s (answer result) e =
      elim (complete_cases job p result times s.database) [
        | inl h ↦ inl (result, e, ground arith, ground arith)
        | inr (x, h) ↦ inr (Failure.provider_failure (setup.shown x), ground arith, ground arith)
      ]

  attempt_cases :
      (job : AnalysisJobData) (p : AnalysisProvider) (content : String) (budget : ℕ) (times : Times)
      (s : System K)
      → Tried job p content times s (attempt db store setup job p content budget times s)
  unfolding attempt
  attempt_cases job p content budget times s = elim (Option-cases r.0) [
    | inl admitted ↦
        rw (attempt, admitted)
          (analyzed_cases job p content times (record s { redis = r.1 }) (p.analyze content) refl)
    | inr (e, refused) ↦ rw (attempt, refused) (inr (Failure.control e, refl, refl))
  ]
    where
      r : Option AnalysisControlError × K
      r =
          enforce store (controls db store setup s.database) job.tenant_id p.name budget
            times.admitted_at s.redis

  -- What a run that won the claim ends in: the answer is stored and the run returns, or a failure is
  -- stored and thrown on.
  abbrev pub Settled :
      AnalysisJobData
      → AnalysisProvider
      → (content : String) → Times
      → System K
      → JobEnd × System K
      → Type 0
  Settled job p content times s r =
      ((result : AnalysisResult) × (p.analyze content ≡ answer result)
        × (r.0 ≡ JobEnd.returned)
        × (r.1.database ≡ done_db job p result times (claim_db job times s.database)))
      ⊎ ((f : Failure) × (r.0 ≡ give_up db store setup f)
          × (r.1.database
              ≡ failed_db job (error_code db store setup f) (claim_db job times s.database)))

  recover_failed :
      (job : AnalysisJobData) (p : AnalysisProvider) (times : Times) (f : Failure) (s : System K)
      → times.mark_error ≡ none
      → any (named job.analysis_id) s.database.analyses ≡ true
      → let r = recover db store setup job p times (some f, s) in
        (r.0 ≡ give_up db store setup f)
        × (r.1.database ≡ failed_db job (error_code db store setup f) s.database)
  unfolding recover
  recover_failed job p times f s stores there =
      let stored = ap (λ o. marking db store setup job f o s.database) stores ∙ marks in
      let r = ap (mark_end db store setup f p times s) stored in
      (ap (λ x. x.0) r, ap (λ x. x.1.database) r)
    where
      marks :
          db.transaction
            (update db analyses (named job.analysis_id) (marked (error_code db store setup f)))
            s.database
          ≡ (ok tt, failed_db job (error_code db store setup f) s.database)
      marks = rw (db.transaction_lem, db.update_lem, there) refl

  recover-none :
      (job : AnalysisJobData) (p : AnalysisProvider) (times : Times) (r : Option Failure × System K)
      → r.0 ≡ none
      → recover db store setup job p times r ≡ (JobEnd.returned, r.1)
  unfolding recover
  recover-none job p times (none, s) e = refl
  recover-none job p times (some f, s) e = cc

  recover-some :
      (job : AnalysisJobData) (p : AnalysisProvider) (times : Times) (r : Option Failure × System K)
      (f : Failure)
      → r.0 ≡ some f
      → recover db store setup job p times r ≡ recover db store setup job p times (some f, r.1)
  recover-some job p times r f e = ap (λ o. recover db store setup job p times (o, r.1)) e

  pub claims :
      (job : AnalysisJobData) (times : Times) (s : Db)
      → db.transaction
          (update_many db analyses (claimable job.analysis_id) (claimed times.claimed_at))
          s
        ≡ (ok (count (claimable job.analysis_id) s.analyses), claim_db job times s)
  claims job times s = rw (db.transaction_lem, db.update_many_lem) refl

  run_won :
      (job : AnalysisJobData) (p : AnalysisProvider) (content : String) (budget : ℕ) (times : Times)
      (s : System K)
      → count (claimable job.analysis_id) s.database.analyses ≡ 1
      → run db store setup job p content budget times s
        ≡ recover db store setup job p times (
            attempt db store setup job p content budget times
              (record s { database = claim_db job times s.database }))
  unfolding run
  run_won job p content budget times s won =
      ap (claim_end db store setup job p content budget times s) (claims job times s.database)
      ∙ ground arith

  pub run_settles :
      (job : AnalysisJobData) (p : AnalysisProvider) (content : String) (budget : ℕ) (times : Times)
      (s : System K)
      → times.mark_error ≡ none
      → count (claimable job.analysis_id) s.database.analyses ≡ 1
      → any (named job.analysis_id) (claim_db job times s.database).analyses ≡ true
      → Settled job p content times s (run db store setup job p content budget times s)
  run_settles job p content budget times s stores won there =
      rw (run_won job p content budget times s won) (elim tried [
        | inl (result, e, h, h') ↦
            let r = recover-none job p times tries h in
            inl (result, e, ap (λ x. x.0) r, ap (λ x. x.1.database) r ∙ h')
        | inr (f, h, h') ↦
            let r = recover-some job p times tries f h in
            let q =
              recover_failed job p times f tries.1 stores (
                subst (λ (x : Db). any (named job.analysis_id) x.analyses ≡ true) (sym h') there) in
            inr (
              f,
              ap (λ x. x.0) r ∙ q.0,
              ap (λ x. x.1.database) r ∙ q.1 ∙ ap (failed_db job (error_code db store setup f)) h',
            )
      ])
    where
      s1 : System K
      s1 = record s { database = claim_db job times s.database }

      tries : Option Failure × System K
      tries = attempt db store setup job p content budget times s1

      tried : Tried job p content times s1 tries
      tried = attempt_cases job p content budget times s1
