-- ===== src/Device/Race/Once.antt =====
-- However polls overlap, a device code is exchanged for tokens once.
use promptlens_v.Prelude.{
  String, ◌≡◌, refl, ◌∙◌, subst, Option, some, List, [], ◌∷◌, arith, Option-cases, inl, inr, In,
  In-append_left, change-In, change, if◌then◌else◌, count, ◌≤◌, ◌==◌, ℕ_eq, String_eq, nat_eq_iff,
}
use promptlens_v.Store.{Prisma, ok, commit}
use promptlens_v.Store.Single.{In_of_count}
use promptlens_v.Store.Overlap.{Event, Keeps, Guard, overlap, quiet, exchanged_once}
use promptlens_v.Schema.{Db, DeviceAuthorization, DeviceAuthorizationStatus}
use promptlens_v.Device.{Crypto, Draw, PollState, poll, poll_row}
use promptlens_v.Device.Poll.{with_approved, consume, poll_row_inv, claim_inv, answered, poll-Issue}
use promptlens_v.Device.Lifecycle.{Evolves, same, changed, added, IsKeyed, poll_found-Evolves}
use promptlens_v.Device.History.{
  Call, creates, approves_code, polls, refreshes, step, step-Evolves, moved_by, Evolves-IsKeyed,
  IsSpent, Evolves-IsSpent, claim-IsSpent, Issue-IsSpent, final_not_approved,
}
use promptlens_v.Device.Race.{
  answered_with, key_of_answer, PollRequest, PollReading, code_exchanged, read_poll, go_on_poll,
  polling,
}

-- A row that was read earlier: the table still has its id, with the same device code.
abbrev pub Lasts : DeviceAuthorization → List DeviceAuthorization → Type 0
Lasts a rows =
    (x : DeviceAuthorization) × In x rows
    × (x.id ≡ a.id)
    × (x.device_code_hash ≡ a.device_code_hash)

Evolves-Lasts :
    (a : DeviceAuthorization) (rows rows' : List DeviceAuthorization)
    → Evolves rows rows'
    → Lasts a rows
    → Lasts a rows'
Evolves-Lasts a rows rows' (same e) l = rw e l
Evolves-Lasts a rows rows' (changed p f e moves) (x, i, same_id, same_code) =
    let m = moved_by p f rows moves x i in
    (
      if p x then f x else x,
      rw e (change-In p f x rows i),
      m.same_id ∙ same_id,
      m.same_code ∙ same_code,
    )
Evolves-Lasts a rows rows' (added b e free new) (x, i, same_id, same_code) =
    (x, rw e (In-append_left x rows (b ∷ []) i), same_id, same_code)

module _ (db : Prisma) (crypto : Crypto) where
  -- What a reading says of the rows that it is to meet.
  record Held (r : PollReading) (s : Db) : Type 0 where
    pub lasts :
        (a : DeviceAuthorization)
        → r.row ≡ some a
        → Lasts a s.devices × (a.device_code_hash ≡ crypto.digest r.request.device_code)

  -- An authorization with the device code is approved.
  abbrev Open : (hash : String) → Db → Type 0
  Open hash s =
      (x : DeviceAuthorization) × In x s.devices
      × (x.device_code_hash ≡ hash)
      × (x.status ≡ DeviceAuthorizationStatus.approved)

  -- The claim of a reading meets the authorization as it is now.
  claimed-IsSpent :
      (hash : String) (a : DeviceAuthorization) (d : Draw) (s : Db)
      → IsKeyed s.devices
      → Lasts a s.devices
      → a.device_code_hash ≡ hash
      → count (with_approved a) s.devices ≡ 1
      → Open hash s × IsSpent hash (change (with_approved a) (consume d) s.devices)
  claimed-IsSpent hash a d s keyed (x, i, same_id, same_code) named one =
      let (y, j, fits) = In_of_count (with_approved a) s.devices one in
      let is_x : y ≡ x = keyed.by_id y x j i (ground (arith, nat_eq_iff y.id a.id)) in
      let approved : x.status ≡ DeviceAuthorizationStatus.approved =
        subst (λ z. z.status ≡ DeviceAuthorizationStatus.approved) is_x (ground arith) in
      (
        (x, i, same_code ∙ named, approved),
        claim-IsSpent hash a x d s.devices keyed i same_id (same_code ∙ named) approved,
      )

  evolving :
      (s : Db) (x : Option String × Db)
      → IsKeyed s.devices
      → Evolves s.devices x.1.devices
      → ((key : String) → x.0 ≡ some key → Open key s × IsSpent key x.1.devices)
      → Keeps
          (polling db crypto)
          (λ z. IsKeyed z.devices)
          Held
          Open
          (λ k z. IsSpent k z.devices)
          s
          x
  evolving s x keyed e exchange = record {
    good = Evolves-IsKeyed _ _ e keyed;
    held = λ r h. record {
      lasts = λ a found. let (l, named) = h.lasts a found in (Evolves-Lasts a _ _ e l, named);
    };
    still_spent = λ key spent. Evolves-IsSpent key _ _ e spent;
    exchange = exchange;
  }

  poll_exchanges :
      (code : String) (v : Option String) (d : Draw) (s : Db) (key : String)
      → IsKeyed s.devices
      → answered_with (poll db crypto code v d s).0 (crypto.digest code) ≡ some key
      → Open key s × IsSpent key (poll db crypto code v d s).1.devices
  poll_exchanges code v d s key keyed h =
      let (r, e, is_key) = key_of_answer _ _ key h in
      let issue = poll-Issue db crypto code v d s r e in
      (
        (issue.authorization, issue.there, issue.named ∙ is_key, issue.approved),
        subst (λ k. IsSpent k (poll db crypto code v d s).1.devices) is_key
            (Issue-IsSpent db crypto code v d s _ r keyed issue),
      )

  call-Keeps :
      (c : Call) (s : Db)
      → IsKeyed s.devices
      → Keeps
          (polling db crypto)
          (λ z. IsKeyed z.devices)
          Held
          Open
          (λ k z. IsSpent k z.devices)
          s
          (code_exchanged db crypto c s, step db crypto c s)
  unfolding code_exchanged step
  call-Keeps c s keyed =
      evolving s (code_exchanged db crypto c s, step db crypto c s) keyed
        (step-Evolves db crypto c s keyed) (exchanges c)
    where
      exchanges :
          (c : Call) (key : String)
          → code_exchanged db crypto c s ≡ some key
          → Open key s × IsSpent key (step db crypto c s).devices
      exchanges (polls code v d) key h = poll_exchanges code v d s key keyed h
      exchanges (creates r now id code user_code) key h = absurd (ground arith)
      exchanges (approves_code actor code project now id) key h = absurd (ground arith)
      exchanges (refreshes token d) key h = absurd (ground arith)

  go_on_exchanges :
      (held : PollReading) (s : Db) (key : String)
      → IsKeyed s.devices
      → Held held s
      → (go_on_poll db crypto held s).0 ≡ some key
      → Open key s × IsSpent key (go_on_poll db crypto held s).1.devices
  unfolding go_on_poll
  go_on_exchanges held s key keyed is_held h =
      let q = held.request in
      let x = poll_row db crypto held.row q.verifier q.draw s in
      let (r, e, is_key) = key_of_answer _ _ key h in
      let (i, p, goes, _) = answered db crypto q.draw s r x e in
      elim (Option-cases held.row) [
        | inl missing ↦ absurd (unfold poll_row in ground arith)
        | inr (a, found) ↦
            let (_, _, _, _, _, claims) =
              poll_row_inv db crypto a q.verifier q.draw s (commit s x).1 i p (
                subst
                  (λ o.
                    poll_row db crypto o q.verifier q.draw s
                    ≡ ok (PollState.issued i p, (commit s x).1))
                  found goes) in
            let (t, _, _, _, one, after) =
              claim_inv db crypto a q.draw s (commit s x).1 i i p claims in
            let (lasts, named) = is_held.lasts a found in
            let (there, over) = claimed-IsSpent key a q.draw s keyed lasts (named ∙ is_key) one in
            (there, rw after over)
      ]

  go_on-Evolves :
      (r : PollReading) (s : Db) → Evolves s.devices (go_on_poll db crypto r s).1.devices
  unfolding go_on_poll
  go_on-Evolves r s = poll_found-Evolves db crypto r.row r.request.verifier r.request.draw s

  read-Held : (q : PollRequest) (s : Db) → Held (read_poll db crypto q s) s
  unfolding read_poll
  read-Held q s = record {
    lasts = λ a found.
        let (named, there) =
          db.found (λ a. a.device_code_hash == crypto.digest q.device_code) s.devices a found in
        ((a, there, refl, refl), (String_eq.same_iff _ _).0 named);
  }

  polling_guard : Guard (polling db crypto)
  polling_guard = record {
    Good = λ s. IsKeyed s.devices;
    Held = Held;
    Open = Open;
    Spent = λ key s. IsSpent key s.devices;
    exclusive = λ key s keyed spent (x, i, named, approved).
        absurd (final_not_approved (spent.final x i named) approved);
    read_held = λ q s keyed. read-Held q s;
    whole_keeps = call-Keeps;
    go_on_keeps = λ r s keyed held.
        evolving s (go_on_poll db crypto r s) keyed (go_on-Evolves r s)
          (λ key h. go_on_exchanges r s key keyed held h);
  }

  -- However polls overlap, each going on from a row that it has read at any time before, among all
  -- other calls on the service, every device code is exchanged for tokens at most once; ids and device
  -- codes are keys of the table at the start.
  pub code_exchanged_once :
      (es : List (Event (polling db crypto))) (s : Db) (code : String)
      → IsKeyed s.devices
      → count
          (λ k. k == crypto.digest code)
          (overlap (polling db crypto) es (quiet (polling db crypto) s)).exchanged
        ≤ 1
  unfolding polling_guard
  code_exchanged_once es s code keyed =
      exchanged_once (polling db crypto) polling_guard es s (crypto.digest code) keyed
