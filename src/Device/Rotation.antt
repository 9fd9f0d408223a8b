-- ===== src/Device/Rotation.antt =====
-- What a successful refresh of connector tokens does, and the same refresh token used again.
use promptlens_v.Prelude.{
  ℕ, String, ◌≡◌, ◌≢◌, ◌<◌, refl, sym, ap, ◌∙◌, Bool, false, Option, none, some, List, [], ◌∷◌,
  ◌++◌, arith, Option-cases, inl, inr, count, change, any, ◌==◌, ℕ_eq, String_eq, In, change-In,
  In-append_left, keyed_change, keyed_append, false_of_In, if◌then◌else◌, is_none, nat_eq_iff,
}
use promptlens_v.Store.{Prisma, Result, ok, err, insert, modify, commit, unauthorized}
use promptlens_v.Schema.{Db, ConnectorCredential, ConnectorInstallation}
use promptlens_v.Device.{
  Crypto, Draw, RefreshState, ConnectorTokenResponse, refresh, refresh_body, refresh_row,
  refresh_usable, refresh_answer, rotate, credential_for, credential_clash, unclaimed, used,
  replaced, token_response,
}
use promptlens_v.Device.Refresh.{IsKeyed, refresh_reuse}

module _ (db : Prisma) (crypto : Crypto) where
  -- What holds when a refresh hands out tokens.
  pub record Rotation (token : String) (d : Draw) (s s' : Db) (r : ConnectorTokenResponse)
      : Type 0 where
    pub credential : ConnectorCredential
    pub installation : ConnectorInstallation
    pub there : In credential s.credentials
    pub named : credential.refresh_token_hash ≡ crypto.digest token
    pub live : credential.revoked_at ≡ none
    pub early : d.now < credential.refresh_expires_at
    pub claimed : count (unclaimed credential) s.credentials ≡ 1
    pub access : r.access_token ≡ d.access_token
    pub renewed : r.refresh_token ≡ d.refresh_token
    pub installed : r.installation_id ≡ credential.installation_id
    pub project : r.project_id ≡ some installation.default_project_id
    pub free :
        any
          (credential_clash (
            credential_for db crypto credential.tenant_id credential.installation_id
              credential.family_id d))
          (change (unclaimed credential) (used d) s.credentials)
        ≡ false
    pub after : s' ≡ record s {
      credentials =
          change
            (λ b. b.id == credential.id)
            (replaced d)
            (change (unclaimed credential) (used d) s.credentials
              ++ credential_for db crypto credential.tenant_id credential.installation_id
                  credential.family_id d
                ∷ []);
    }

  pub rotate_row :
      (c : ConnectorCredential) (d : Draw) (s s' : Db) (i p : ℕ)
      → refresh_row db crypto (some c) d s ≡ ok (RefreshState.issued i p, s')
      → (c.revoked_at ≡ none)
        × (d.now < c.refresh_expires_at)
        × (count (unclaimed c) s.credentials ≡ 1)
        × (rotate db crypto c d
              (record s { credentials = change (unclaimed c) (used d) s.credentials })
            ≡ ok (RefreshState.issued i p, s'))
  unfolding refresh_row refresh_usable
  rotate_row c d s s' i p h =
      ground (arith, db.update_many_lem (unclaimed c) (used d) s.credentials)

  pub rotate_inv :
      (c : ConnectorCredential) (d : Draw) (s s' : Db) (i p : ℕ)
      → rotate db crypto c d s ≡ ok (RefreshState.issued i p, s')
      → (n : ConnectorInstallation) × (i ≡ c.installation_id)
        × (p ≡ n.default_project_id)
        × (any
              (credential_clash
                (credential_for db crypto c.tenant_id c.installation_id c.family_id d))
              s.credentials
            ≡ false)
        × (s' ≡ record s {
          credentials =
              change
                (λ b. b.id == c.id)
                (replaced d)
                (s.credentials
                  ++ credential_for db crypto c.tenant_id c.installation_id c.family_id d ∷ []);
        })
  unfolding rotate
  rotate_inv c d s s' i p h =
      elim (Option-cases (
        db.find_first (λ (n : ConnectorInstallation). n.id == c.installation_id) s.installations)) [
          | inl missing ↦ absurd (ground (arith, creates, updates))
          | inr (n, e) ↦ (
            n,
            ground (arith, creates, updates),
            ground (arith, creates, updates),
            ground (arith, creates, updates),
            ground (arith, creates, updates),
          )
        ]
    where
      new : ConnectorCredential
      new = credential_for db crypto c.tenant_id c.installation_id c.family_id d

      creates :
          db.create credential_clash new s.credentials ≡ insert credential_clash new s.credentials
      creates = db.create_lem _ _ _

      updates :
          db.update
            (λ (b : ConnectorCredential). b.id == c.id)
            (replaced d)
            (s.credentials ++ new ∷ [])
          ≡ modify
              (λ (b : ConnectorCredential). b.id == c.id)
              (replaced d)
              (s.credentials ++ new ∷ [])
      updates = db.update_lem _ _ _

  pub refresh_answered :
      (d : Draw) (s : Db) (r : ConnectorTokenResponse) (x : Result (RefreshState × Db))
      → refresh_answer db crypto d (commit s x).0 ≡ ok r
      → (i p : ℕ) × (x ≡ ok (RefreshState.issued i p, (commit s x).1))
        × (r ≡ token_response db crypto d i (some p))
  refresh_answered d s r (ok (RefreshState.issued i p, s')) h = (i, p, refl, ground arith)
  refresh_answered d s r (ok (RefreshState.invalid, s')) h = cc
  refresh_answered d s r (ok (RefreshState.reuse, s')) h = cc
  refresh_answered d s r (err e) h = cc

  Rotation-body :
      (token : String) (d : Draw) (s s' : Db) (r : ConnectorTokenResponse) (i p : ℕ)
      → refresh_body db crypto token d s ≡ ok (RefreshState.issued i p, s')
      → r ≡ token_response db crypto d i (some p)
      → Rotation token d s s' r
  unfolding refresh_body token_response
  Rotation-body token d s s' r i p e answer = elim (Option-cases row) [
    | inl none_found ↦ absurd (unfold refresh_row in ground arith)
    | inr (c, found) ↦
        let (live, early, claimed, rotated) = rotate_row c d s s' i p (ground arith) in
        let (n, same_i, same_p, free, after) = rotate_inv c d _ s' i p rotated in
        let (named, there) = db.found _ s.credentials c found in
        record {
          credential = c;
          installation = n;
          there = there;
          named = (String_eq.same_iff _ _).0 named;
          live = live;
          early = early;
          claimed = claimed;
          access = ground arith;
          renewed = ground arith;
          installed = ground arith;
          project = ground arith;
          free = free;
          after = after;
        }
  ]
    where
      row : Option ConnectorCredential
      row = db.find_first (λ c. c.refresh_token_hash == crypto.digest token) s.credentials

  -- A refresh succeeds only for a credential with the token's hash that is neither revoked nor past its
  -- term and of which one row can still be claimed. It marks that as used, adds one credential of the
  -- same workspace, installation and family with the hashes of the new tokens, notes the replacement, and
  -- answers with the installation's default project; no other table changes.
  pub refresh-Rotation :
      (token : String) (d : Draw) (s : Db) (r : ConnectorTokenResponse)
      → (refresh db crypto token d s).0 ≡ ok r
      → Rotation token d s (refresh db crypto token d s).1 r
  unfolding refresh
  refresh-Rotation token d s r h =
      let (i, p, e, answer) =
        refresh_answered d s r (refresh_body db crypto token d s) (rw db.transaction_lem at h) in
      rw db.transaction_lem (Rotation-body token d s _ r i p e answer)

credential_ids : (a x : ConnectorCredential) → credential_clash a x ≡ false → a.id ≢ x.id
credential_ids a x h e = ground (arith, nat_eq_iff a.id x.id)

credential_tokens :
    (a x : ConnectorCredential)
    → credential_clash a x ≡ false
    → a.refresh_token_hash ≢ x.refresh_token_hash
credential_tokens a x h e =
    ground (arith, String_eq.same_iff a.refresh_token_hash x.refresh_token_hash)

pub change-IsKeyed :
    (p : ConnectorCredential → Bool) (f : ConnectorCredential → ConnectorCredential)
    (rows : List ConnectorCredential)
    → ((x : ConnectorCredential) → (f x).id ≡ x.id)
    → ((x : ConnectorCredential) → (f x).refresh_token_hash ≡ x.refresh_token_hash)
    → IsKeyed rows
    → IsKeyed (change p f rows)
change-IsKeyed p f rows ids tokens k = record {
  by_id = keyed_change (λ x. x.id) rows k.by_id p f (λ x i. ground (arith, ids x));
  by_refresh =
      keyed_change (λ x. x.refresh_token_hash) rows k.by_refresh p f
        (λ x i. ground (arith, tokens x));
}

pub append-IsKeyed :
    (a : ConnectorCredential) (rows : List ConnectorCredential)
    → any (credential_clash a) rows ≡ false
    → IsKeyed rows
    → IsKeyed (rows ++ a ∷ [])
append-IsKeyed a rows free k = record {
  by_id =
      keyed_append (λ x. x.id) rows k.by_id a
        (λ x i. credential_ids a x (false_of_In (credential_clash a) x rows free i));
  by_refresh =
      keyed_append (λ x. x.refresh_token_hash) rows k.by_refresh a
        (λ x i. credential_tokens a x (false_of_In (credential_clash a) x rows free i));
}

module _ (db : Prisma) (crypto : Crypto) where
  Rotation-IsKeyed :
      (token : String) (d : Draw) (s s' : Db) (r : ConnectorTokenResponse)
      → Rotation db crypto token d s s' r
      → IsKeyed s.credentials
      → IsKeyed s'.credentials
  Rotation-IsKeyed token d s s' r rot k = rw rot.after (
      change-IsKeyed (λ b. b.id == rot.credential.id) (replaced d) _ (λ x. refl) (λ x. refl)
        (append-IsKeyed _ _ rot.free (
          change-IsKeyed (unclaimed rot.credential) (used d) s.credentials (λ x. refl) (λ x. refl)
            k)))

  -- The credential of the old token, as the rotation leaves it.
  abbrev left_behind : Draw → ConnectorCredential → ConnectorCredential
  left_behind d c =
      let b = if unclaimed c c then used d c else c in if b.id == c.id then replaced d b else b

  left_there :
      (token : String) (d : Draw) (s s' : Db) (r : ConnectorTokenResponse)
      (rot : Rotation db crypto token d s s' r)
      → In (left_behind d rot.credential) s'.credentials
  left_there token d s s' r rot = rw rot.after (
      change-In (λ b. b.id == c.id) (replaced d) _ _
        (In-append_left _ _ _ (change-In (unclaimed c) (used d) c s.credentials rot.there)))
    where
      c : ConnectorCredential
      c = rot.credential

  left_facts :
      (d : Draw) (c : ConnectorCredential)
      → c.revoked_at ≡ none
      → ((left_behind d c).refresh_token_hash ≡ c.refresh_token_hash)
        × ((left_behind d c).revoked_at ≡ none)
        × ((left_behind d c).refresh_expires_at ≡ c.refresh_expires_at)
        × ((left_behind d c).family_id ≡ c.family_id)
        × (is_none (left_behind d c).used_at ≡ false)
  left_facts d c h = ground (arith, nat_eq_iff c.id c.id)

  -- A refresh token works once: used again before its term it is refused, and every credential of
  -- the family is revoked. Ids and refresh tokens are keys of the table before the first use.
  pub refresh_twice :
      (token : String) (d d' : Draw) (s : Db) (r : ConnectorTokenResponse) (c : ConnectorCredential)
      → IsKeyed s.credentials
      → In c s.credentials
      → c.refresh_token_hash ≡ crypto.digest token
      → d'.now < c.refresh_expires_at
      → (refresh db crypto token d s).0 ≡ ok r
      → let s1 = (refresh db crypto token d s).1 in
        ((refresh db crypto token d' s1).0 ≡ err (unauthorized "Refresh token reuse detected."))
        × ((y : ConnectorCredential)
            → In y (refresh db crypto token d' s1).1.credentials
            → y.family_id ≡ c.family_id
            → is_none y.revoked_at ≡ false)
  refresh_twice token d d' s r c keyed here named early h =
      let rot = refresh-Rotation db crypto token d s r h in
      let one = keyed.by_refresh rot.credential c rot.there here (rot.named ∙ sym named) in
      let (hash, live, term, family, was_used) = left_facts d rot.credential rot.live in
      let (refused, revoked) =
        refresh_reuse db crypto token d' _ (left_behind d rot.credential)
          (Rotation-IsKeyed token d s _ r rot keyed) (left_there token d s _ r rot)
          (hash ∙ rot.named) live (rw (term, one) early) was_used in
      (refused, λ y i e. revoked y i (e ∙ sym (family ∙ ap (λ x. x.family_id) one)))
