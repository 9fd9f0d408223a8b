-- ===== src/Config/Accepted.antt =====
-- What a configuration that was accepted keeps.
use promptlens_v.Prelude.{
  true, ◌≡◌, refl, subst, Option, List, [], ◌∷◌, ◌++◌, arith, inl, inr, Option-cases,
}
use promptlens_v.Store.{ok}
use promptlens_v.Config.{
  RuntimeConfig, Issue, Variables, parse_runtime_config, host_issue, user_issue, issues, is_given,
  refined,
}

refined_inv :
    (c config : RuntimeConfig) (found : List Issue)
    → refined c found ≡ ok config
    → (c ≡ config) × (found ≡ [])
refined_inv c config [] h = (ground arith, refl)
refined_inv c config (i ∷ more) h = absurd (ground arith)

nil_left : (xs ys : List Issue) → xs ++ ys ≡ [] → xs ≡ []
nil_left [] ys h = refl
nil_left (x ∷ xs) ys h = absurd (ground arith)

host_given :
    (c : RuntimeConfig)
    → host_issue c ≡ []
    → c.email_verification_required ≡ true
    → is_given c.smtp_host ≡ true
unfolding host_issue
host_given c none_found required = ground arith

pub accepted_host :
    (object_schema : Variables → Option RuntimeConfig) (environment : Variables)
    (config : RuntimeConfig)
    → parse_runtime_config object_schema environment ≡ ok config
    → config.email_verification_required ≡ true
    → is_given config.smtp_host ≡ true
unfolding parse_runtime_config
accepted_host object_schema environment config h required =
    elim (Option-cases (object_schema environment)) [
      | inl missing ↦ absurd (ground arith)
      | inr (c, e) ↦
          let (same, none_found) =
            refined_inv c config (issues c) (rw (parse_runtime_config, e) at h) in
          host_given config
            (subst (λ z. host_issue z ≡ []) same
              (nil_left (host_issue c) (user_issue c) none_found))
            required
    ]
