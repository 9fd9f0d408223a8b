-- ===== src/Admin/Overview/Sums.antt =====
-- The counts of the workspaces add up to the counts of the instance.
use promptlens_v.Prelude.{
  ℕ, suc, Bool, true, false, ◌&&◌, ◌||◌, ◌≡◌, refl, ◌∙◌, sym, List, [], ◌∷◌, ◌+◌, arith, ◌==◌, ℕ_eq,
  In, inl, inr, count, total, length, is_none, if◌then◌else◌, some,
}
use promptlens_v.Store.{Prisma, ok}
use promptlens_v.Schema.{Db, Tenant}
use promptlens_v.Schema.Enums.{is_queued}
use promptlens_v.Actor.{AuthenticatedActor}
use promptlens_v.Admin.{is_tenant_admin}
use promptlens_v.Tenancy.{using_policy, set_config}
use promptlens_v.Admin.Overview.{
  InstanceOverview, tenant_overview, instance_overview, overview, queued_analyses_of,
  unpublished_events_of,
}

module _ {A : Type 0} where
  total_ext : (f g : A → ℕ) (xs : List A) → ((x : A) → f x ≡ g x) → total f xs ≡ total g xs
  total_ext f g [] h = refl
  total_ext f g (x ∷ xs) h = omega (arith, h x, total_ext f g xs h)

  total_zero : (xs : List A) → total (λ x. 0) xs ≡ 0
  total_zero [] = refl
  total_zero (x ∷ xs) = omega (arith, total_zero xs)

  count_ext : (p q : A → Bool) (xs : List A) → ((x : A) → p x ≡ q x) → count p xs ≡ count q xs
  count_ext p q [] h = refl
  count_ext p q (x ∷ xs) h = ground (arith, h x, count_ext p q xs h)

  length-count : (xs : List A) → length xs ≡ count (λ x. true) xs
  length-count [] = refl
  length-count (x ∷ xs) = omega (arith, length-count xs)

  -- To count one row more where `p` holds of it and the row fits.
  total-suc :
      (p : A → Bool) (fits : Bool) (f : A → ℕ) (xs : List A)
      → total (λ x. if p x && fits then suc (f x) else f x) xs
        ≡ total f xs + (if fits then count p xs else 0)
  total-suc p true f [] = refl
  total-suc p false f [] = refl
  total-suc p fits f (x ∷ xs) = ground (arith, total-suc p fits f xs)

-- Rows that each belong to exactly one of the workspaces.
abbrev pub Housed : {R : Type 0} → (R → ℕ) → List Tenant → List R → Type 0
Housed {R} tenant tenants rows = (r : R) → In r rows → count (λ t. tenant r == t.id) tenants ≡ 1

counts_add_up :
    {R : Type 0} (tenant : R → ℕ) (q : R → Bool) (ts : List Tenant) (rows : List R)
    → Housed tenant ts rows
    → total (λ t. count (λ r. tenant r == t.id && q r) rows) ts ≡ count q rows
counts_add_up tenant q ts [] h = total_zero ts
counts_add_up tenant q ts (r ∷ rows) h =
    let step =
      total-suc (λ t. tenant r == t.id) (q r) (λ t. count (λ x. tenant x == t.id && q x) rows) ts in
    let rest = counts_add_up tenant q ts rows (λ x i. h x (inr i)) in
    step ∙ ground (arith, rest, h r (inl refl))

-- What `instance` is to say: counts over all rows, whosever they are.
abbrev pub whole_instance : Db → InstanceOverview
whole_instance s = record {
  users = length s.users;
  tenants = length s.tenants;
  queued_analyses = count (λ a. is_queued a.status) s.analyses;
  unpublished_events = count (λ e. is_none e.published_at) s.outbox;
}

module _ (db : Prisma) where
  Housed-find_many :
      {R : Type 0} (tenant : R → ℕ) (ts : List Tenant) (rows : List R)
      → Housed tenant ts rows
      → Housed tenant (db.find_many (λ t. true) ts) rows
  Housed-find_many tenant ts rows h r i =
      db.find_many_count (λ t. true) (λ t. tenant r == t.id) ts ∙ h r i

  queued_add_up :
      (actor : AuthenticatedActor) (s : Db) (ts : List Tenant)
      → Housed (λ a. a.tenant_id) ts s.analyses
      → total (queued_analyses_of db actor s) ts ≡ count (λ a. is_queued a.status) s.analyses
  unfolding queued_analyses_of using_policy set_config
  queued_add_up actor s ts h =
      total_ext _ _ ts (λ t. db.row_count_lem _ s.analyses)
      ∙ counts_add_up (λ a. a.tenant_id) (λ a. is_queued a.status) ts s.analyses h

  unpublished_add_up :
      (actor : AuthenticatedActor) (s : Db) (ts : List Tenant)
      → Housed (λ e. e.tenant_id) ts s.outbox
      → total (unpublished_events_of db actor s) ts ≡ count (λ e. is_none e.published_at) s.outbox
  unfolding unpublished_events_of using_policy set_config
  unpublished_add_up actor s ts h =
      total_ext _ _ ts (λ t.
        db.row_count_lem _ s.outbox
        ∙ count_ext (λ e. (e.tenant_id == t.id || false) && is_none e.published_at)
            (λ e. e.tenant_id == t.id && is_none e.published_at) s.outbox (λ e. ground arith))
      ∙ counts_add_up (λ e. e.tenant_id) (λ e. is_none e.published_at) ts s.outbox h

  instance_overview-whole_instance :
      (actor : AuthenticatedActor) (s : Db)
      → Housed (λ a. a.tenant_id) s.tenants s.analyses
      → Housed (λ e. e.tenant_id) s.tenants s.outbox
      → instance_overview db actor s ≡ whole_instance s
  unfolding instance_overview
  instance_overview-whole_instance actor s analyses events =
      let ts = db.find_many (λ t. true) s.tenants in
      let users : db.row_count (λ u. true) s.users ≡ length s.users =
        db.row_count_lem (λ u. true) s.users ∙ sym (length-count s.users) in
      let tenants : length ts ≡ length s.tenants =
        length-count ts
        ∙ db.find_many_count (λ t. true) (λ t. true) s.tenants
        ∙ sym (length-count s.tenants) in
      let queued =
        queued_add_up actor s ts
          (Housed-find_many (λ a. a.tenant_id) s.tenants s.analyses analyses) in
      let unpublished =
        unpublished_add_up actor s ts
          (Housed-find_many (λ e. e.tenant_id) s.tenants s.outbox events) in
      rw (instance_overview, users, tenants, queued, unpublished) refl

  -- An instance administrator who is also an owner or administrator of the current workspace reads
  -- the numbers of the whole instance from the overview, though each count runs under the policies of
  -- one workspace: where every analysis and every event belongs to exactly one workspace, the sums
  -- over the workspaces are the counts over all rows.
  pub overview-whole_instance :
      (actor : AuthenticatedActor) (s : Db)
      → is_tenant_admin actor.role ≡ true
      → actor.is_instance_admin ≡ true
      → Housed (λ a. a.tenant_id) s.tenants s.analyses
      → Housed (λ e. e.tenant_id) s.tenants s.outbox
      → overview db actor s ≡ ok (tenant_overview db actor.tenant_id s, some (whole_instance s))
  unfolding overview
  overview-whole_instance actor s admin everywhere analyses events =
      rw (overview, admin, instance_overview-whole_instance actor s analyses events, everywhere)
        refl
