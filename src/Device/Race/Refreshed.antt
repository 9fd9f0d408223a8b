-- ===== src/Device/Race/Refreshed.antt =====
-- However refreshes overlap, a refresh token is exchanged once.
use promptlens_v.Prelude.{
  String, ◌≡◌, refl, ◌∙◌, sym, ap, subst, Bool, true, false, Option, none, some, List, [], ◌∷◌,
  ◌++◌, arith, In, In-append_left, change-In, change, if◌then◌else◌, count, ◌≤◌, ◌==◌, ℕ_eq,
  String_eq, nat_eq_iff, is_none,
}
use promptlens_v.Store.{Prisma, commit}
use promptlens_v.Store.Single.{In_of_count}
use promptlens_v.Store.Overlap.{Event, Keeps, Guard, overlap, quiet, exchanged_once}
use promptlens_v.Schema.{Db, ConnectorCredential}
use promptlens_v.Device.{
  Crypto, Draw, refresh, refresh_body, refresh_row, refresh_answer, unclaimed, used, replaced,
}
use promptlens_v.Device.Refresh.{IsKeyed}
use promptlens_v.Device.Rotation.{rotate_row, rotate_inv, refresh_answered}
use promptlens_v.Device.History.{Call, creates, approves_code, polls, refreshes, step}
use promptlens_v.Device.Race.{
  answered_with, key_of_answer, RefreshReading, token_exchanged, read_refresh, go_on_refresh,
  refreshing,
}
use promptlens_v.Device.Race.Tokens.{Turns, Turns-IsKeyed, Turns-Later}
use promptlens_v.Device.Race.Calls.{refresh_row-Turns, step-Turns}

-- The credential of a refresh token, not yet used or used.
abbrev pub WithToken : (unused : Bool) (hash : String) → List ConnectorCredential → Type 0
WithToken unused hash rows =
    (x : ConnectorCredential) × In x rows
    × (x.refresh_token_hash ≡ hash)
    × (is_none x.used_at ≡ unused)

-- A row that was read earlier: the table still has its id, with the same token.
abbrev Lasts : ConnectorCredential → List ConnectorCredential → Type 0
Lasts c rows =
    (x : ConnectorCredential) × In x rows
    × (x.id ≡ c.id)
    × (x.refresh_token_hash ≡ c.refresh_token_hash)

-- The credential that a rotation leaves in place of `x`.
abbrev rotated_from : (c : ConnectorCredential) → Draw → ConnectorCredential → ConnectorCredential
rotated_from c d x =
    let b = if unclaimed c x then used d x else x in if b.id == c.id then replaced d b else b

rotated_used :
    (c x : ConnectorCredential) (d : Draw)
    → unclaimed c x ≡ true
    → ((rotated_from c d x).refresh_token_hash ≡ x.refresh_token_hash)
      × (is_none (rotated_from c d x).used_at ≡ false)
rotated_used c x d h = ground arith

rotated_there :
    (c x new : ConnectorCredential) (d : Draw) (rows : List ConnectorCredential)
    → In x rows
    → In
        (rotated_from c d x)
        (change (λ b. b.id == c.id) (replaced d) (change (unclaimed c) (used d) rows ++ new ∷ []))
rotated_there c x new d rows i =
    change-In (λ b. b.id == c.id) (replaced d) _ _
      (In-append_left _ _ _ (change-In (unclaimed c) (used d) x rows i))

module _ (db : Prisma) (crypto : Crypto) where
  record Held (r : RefreshReading) (s : Db) : Type 0 where
    pub lasts :
        (c : ConnectorCredential)
        → r.row ≡ some c
        → Lasts c s.credentials × (c.refresh_token_hash ≡ crypto.digest r.request.refresh_token)

  abbrev KeepsAll : (s : Db) → Option String × Db → Type 0
  KeepsAll =
      Keeps (refreshing db crypto) (λ z. IsKeyed z.credentials) Held
        (λ k z. WithToken true k z.credentials) (λ k z. WithToken false k z.credentials)

  abbrev Exchanges : (key : String) → Db → Db → Type 0
  Exchanges key s s' = WithToken true key s.credentials × WithToken false key s'.credentials

  turning :
      (s : Db) (x : Option String × Db)
      → IsKeyed s.credentials
      → Turns s.credentials x.1.credentials
      → ((key : String) → x.0 ≡ some key → Exchanges key s x.1)
      → KeepsAll s x
  turning s x keyed t exchange = record {
    good = Turns-IsKeyed _ _ t keyed;
    held = λ r h. record {
      lasts = λ c found.
          let ((y, i, same_id, same_token), named) = h.lasts c found in
          let (z, j, l) = Turns-Later y _ _ t i in
          ((z, j, l.same_id ∙ same_id, l.same_token ∙ same_token), named);
    };
    still_spent = λ key (y, i, named, was_used).
        let (z, j, l) = Turns-Later y _ _ t i in
        (z, j, l.same_token ∙ named, l.still_used was_used);
    exchange = exchange;
  }

  -- A refresh that goes on from a row read before and answers with tokens.
  refresh_row-Exchanges :
      (o : Option ConnectorCredential) (d : Draw) (s : Db) (hash key : String)
      → IsKeyed s.credentials
      → ((c : ConnectorCredential)
          → o ≡ some c
          → Lasts c s.credentials × (c.refresh_token_hash ≡ hash))
      → answered_with (refresh_answer db crypto d (commit s (refresh_row db crypto o d s)).0) hash
        ≡ some key
      → Exchanges key s (commit s (refresh_row db crypto o d s)).1
  refresh_row-Exchanges none d s hash key keyed held h = absurd (unfold refresh_row in ground arith)
  refresh_row-Exchanges (some c) d s hash key keyed held h =
      let x = refresh_row db crypto (some c) d s in
      let s' = (commit s x).1 in
      let (r, e, is_key) = key_of_answer _ hash key h in
      let (i, p, goes, _) = refresh_answered db crypto d s r x e in
      let (_, _, one, rotated) = rotate_row db crypto c d s s' i p goes in
      let (_, _, _, _, after) = rotate_inv db crypto c d _ s' i p rotated in
      let ((y, j, same_id, same_token), named) = held c refl in
      let (z, k, fits) = In_of_count (unclaimed c) s.credentials one in
      let is_y : z ≡ y = keyed.by_id z y k j (ground (arith, nat_eq_iff z.id c.id)) in
      let free : unclaimed c y ≡ true = subst (λ w. unclaimed c w ≡ true) is_y fits in
      let hash_y = same_token ∙ named ∙ is_key in
      let (kept, was_used) = rotated_used c y d free in
      (
        (y, j, hash_y, ground arith),
        rw after
            (rotated_from c d y, rotated_there c y _ d s.credentials j, kept ∙ hash_y, was_used),
      )

  found_held :
      (token : String) (s : Db) (c : ConnectorCredential)
      → db.find_first (λ b. b.refresh_token_hash == crypto.digest token) s.credentials ≡ some c
      → Lasts c s.credentials × (c.refresh_token_hash ≡ crypto.digest token)
  found_held token s c found =
      let (named, there) =
        db.found (λ b. b.refresh_token_hash == crypto.digest token) s.credentials c found in
      ((c, there, refl, refl), (String_eq.same_iff _ _).0 named)

  refresh-Exchanges :
      (token : String) (d : Draw) (s : Db) (key : String)
      → IsKeyed s.credentials
      → answered_with (refresh db crypto token d s).0 (crypto.digest token) ≡ some key
      → Exchanges key s (refresh db crypto token d s).1
  unfolding refresh refresh_body
  refresh-Exchanges token d s key keyed h = rw db.transaction_lem (
      refresh_row-Exchanges _ d s (crypto.digest token) key keyed (found_held token s)
        (rw db.transaction_lem at h))

  call-Keeps :
      (c : Call) (s : Db)
      → IsKeyed s.credentials
      → KeepsAll s (token_exchanged db crypto c s, step db crypto c s)
  unfolding token_exchanged step
  call-Keeps c s keyed =
      turning s (token_exchanged db crypto c s, step db crypto c s) keyed (step-Turns db crypto c s)
        (exchanges c)
    where
      exchanges :
          (c : Call) (key : String)
          → token_exchanged db crypto c s ≡ some key
          → Exchanges key s (step db crypto c s)
      exchanges (refreshes token d) key h = refresh-Exchanges token d s key keyed h
      exchanges (polls code v d) key h = absurd (ground arith)
      exchanges (creates r now id code user_code) key h = absurd (ground arith)
      exchanges (approves_code actor code project now id) key h = absurd (ground arith)

  go_on-Keeps :
      (r : RefreshReading) (s : Db)
      → IsKeyed s.credentials
      → Held r s
      → KeepsAll s (go_on_refresh db crypto r s)
  unfolding go_on_refresh
  go_on-Keeps r s keyed held =
      turning s (go_on_refresh db crypto r s) keyed
        (refresh_row-Turns db crypto r.row r.request.draw s)
        (λ key h.
          refresh_row-Exchanges r.row r.request.draw s (crypto.digest r.request.refresh_token) key
            keyed held.lasts h)

  refreshing_guard : Guard (refreshing db crypto)
  refreshing_guard = record {
    Good = λ s. IsKeyed s.credentials;
    Held = Held;
    Open = λ key s. WithToken true key s.credentials;
    Spent = λ key s. WithToken false key s.credentials;
    exclusive = λ key s keyed (x, i, hash_x, was_used) (y, j, hash_y, unused). absurd (
        ground
          (arith, ap (λ z. is_none z.used_at) (keyed.by_refresh x y i j (hash_x ∙ sym hash_y))));
    read_held = λ q s keyed. unfold read_refresh in record { lasts = found_held q.refresh_token s };
    whole_keeps = call-Keeps;
    go_on_keeps = go_on-Keeps;
  }

  -- However refreshes overlap, each going on from a credential that it has read at any time before,
  -- among all other calls on the service, every refresh token is exchanged for new tokens at most
  -- once; ids and refresh tokens are keys of the table at the start.
  pub token_exchanged_once :
      (es : List (Event (refreshing db crypto))) (s : Db) (token : String)
      → IsKeyed s.credentials
      → count
          (λ k. k == crypto.digest token)
          (overlap (refreshing db crypto) es (quiet (refreshing db crypto) s)).exchanged
        ≤ 1
  unfolding refreshing_guard
  token_exchanged_once es s token keyed =
      exchanged_once (refreshing db crypto) refreshing_guard es s (crypto.digest token) keyed
