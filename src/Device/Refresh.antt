-- ===== src/Device/Refresh.antt =====
-- Rotation and reuse of refresh tokens in `DeviceAuthorizationService`.
use promptlens_v.Prelude.{
  String, ◌≡◌, ◌<◌, refl, sym, ap, ◌∙◌, subst, Bool, false, Option, none, some, List, [], ◌∷◌,
  arith, Option-cases, Bool-cases, inl, inr, count, change, ◌==◌, ℕ_eq, String_eq, In, In-change,
  any_of_In, IsKey, is_none, nat_eq_iff, nat_eq,
}
use promptlens_v.Store.{Prisma, ok, err, unauthorized}
use promptlens_v.Schema.{Db, ConnectorCredential}
use promptlens_v.Device.{
  Crypto, Draw, RefreshState, refresh, refresh_body, refresh_row, refresh_usable, unclaimed,
  live_relative, used, withdrawn,
}

-- The id and the refresh token are keys of the table of credentials.
pub record IsKeyed (rows : List ConnectorCredential) : Type 0 where
  pub by_id : IsKey (λ x. x.id) rows
  pub by_refresh : IsKey (λ x. x.refresh_token_hash) rows

module _ (db : Prisma) (crypto : Crypto) where
  -- The credential that a refresh token finds is the one that holds its hash.
  finds :
      (token : String) (c : ConnectorCredential) (rows : List ConnectorCredential)
      → IsKeyed rows
      → In c rows
      → c.refresh_token_hash ≡ crypto.digest token
      → db.find_first (λ b. b.refresh_token_hash == crypto.digest token) rows ≡ some c
  finds token c rows keyed here e = elim (Option-cases row) [
    | inl missing ↦ absurd (
        ground (
          arith,
          any_of_In test c rows here,
          String_eq.same_iff c.refresh_token_hash (crypto.digest token),
          db.missed test rows,
        ))
    | inr (b, found) ↦
        let (named, there) = db.found test rows b found in
        found ∙ ap some (keyed.by_refresh b c there here ((String_eq.same_iff _ _).0 named ∙ sym e))
  ]
    where
      test : ConnectorCredential → Bool
      test b = b.refresh_token_hash == crypto.digest token

      row : Option ConnectorCredential
      row = db.find_first test rows

  -- No row of the table can be claimed once the credential is used.
  unclaimed_none :
      (c : ConnectorCredential) (rows : List ConnectorCredential)
      → ((b : ConnectorCredential) → In b rows → unclaimed c b ≡ false)
      → count (unclaimed c) rows ≡ 0
  unclaimed_none c [] h = refl
  unclaimed_none c (b ∷ rows) h =
      ground (arith, h b (inl refl), unclaimed_none c rows (λ x i. h x (inr i)))

  reuse_row :
      (c : ConnectorCredential) (d : Draw) (s : Db)
      → c.revoked_at ≡ none
      → d.now < c.refresh_expires_at
      → count (unclaimed c) s.credentials ≡ 0
      → let r = refresh_row db crypto (some c) d s in
        (s' : Db) × (r ≡ ok (RefreshState.reuse, s'))
        × (s'.credentials
            ≡ change (live_relative c) (withdrawn d) (change (unclaimed c) (used d) s.credentials))
  unfolding refresh_row refresh_usable
  reuse_row c d s live early none_left = (
    record s {
      credentials =
          change (live_relative c) (withdrawn d) (change (unclaimed c) (used d) s.credentials);
    },
    ground (arith, claims, withdraws),
    refl,
  )
    where
      claims :
          db.update_many (unclaimed c) (used d) s.credentials
          ≡ (change (unclaimed c) (used d) s.credentials, count (unclaimed c) s.credentials)
      claims = db.update_many_lem _ _ _

      withdraws :
          db.update_many
            (live_relative c)
            (withdrawn d)
            (change (unclaimed c) (used d) s.credentials)
          ≡ (
            change (live_relative c) (withdrawn d) (change (unclaimed c) (used d) s.credentials),
            count (live_relative c) (change (unclaimed c) (used d) s.credentials),
          )
      withdraws = db.update_many_lem _ _ _

  used_unclaimed :
      (c b : ConnectorCredential)
      → is_none c.used_at ≡ false
      → (b.id ≡ c.id → b ≡ c)
      → unclaimed c b ≡ false
  used_unclaimed c b e one = elim (Bool-cases (nat_eq b.id c.id)) [
    | inl h ↦ rw (one ((nat_eq_iff b.id c.id).0 h)) (ground arith)
    | inr h ↦ rw h
  ]

  withdrawn_all :
      (c y : ConnectorCredential) (d : Draw) (rows : List ConnectorCredential)
      → In y (change (live_relative c) (withdrawn d) rows)
      → y.family_id ≡ c.family_id
      → is_none y.revoked_at ≡ false
  withdrawn_all c y d rows i e =
      let (x, _, ex) = In-change (live_relative c) (withdrawn d) y rows i in
      ground (arith, nat_eq_iff x.family_id c.family_id)

  -- A refresh token that was used before is refused, and from then on every credential of its family
  -- is revoked, the one that replaced it included. Refresh tokens and ids are keys of the table, and
  -- the credential is neither revoked nor past its term.
  pub refresh_reuse :
      (token : String) (d : Draw) (s : Db) (c : ConnectorCredential)
      → IsKeyed s.credentials
      → In c s.credentials
      → c.refresh_token_hash ≡ crypto.digest token
      → c.revoked_at ≡ none
      → d.now < c.refresh_expires_at
      → is_none c.used_at ≡ false
      → ((refresh db crypto token d s).0 ≡ err (unauthorized "Refresh token reuse detected."))
        × ((y : ConnectorCredential)
            → In y (refresh db crypto token d s).1.credentials
            → y.family_id ≡ c.family_id
            → is_none y.revoked_at ≡ false)
  unfolding refresh refresh_body
  refresh_reuse token d s c keyed here named live early was_used =
      let found = finds token c s.credentials keyed here named in
      let none_left =
        unclaimed_none c s.credentials
          (λ b i. used_unclaimed c b was_used (λ e. keyed.by_id b c i here e)) in
      let (s', e, after) = reuse_row c d s live early none_left in
      rw (db.transaction_lem, refresh_body, found, e)
        (refl, λ y i same. withdrawn_all c y d _ (subst (In y) after i) same)
