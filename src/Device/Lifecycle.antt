-- ===== src/Device/Lifecycle.antt =====
-- How the handlers of `DeviceAuthorizationService` move an authorization from status to status.
use promptlens_v.Prelude.{
  ℕ, String, ◌≡◌, refl, Bool, true, false, Option, List, [], ◌∷◌, ◌++◌, arith, none, some,
  Option-cases, Bool-cases, inl, inr, change, any, In, IsKey, ◌==◌, ◌⊎◌, ℕ_eq, String_eq, leb,
  nat_eq_iff,
}
use promptlens_v.Store.{Prisma, commit}
use promptlens_v.Schema.{Db, DeviceAuthorization, DeviceAuthorizationStatus, Project}
use promptlens_v.Schema.Enums.{is_pending}
use promptlens_v.Actor.{AuthenticatedActor}
use promptlens_v.Device.{
  Crypto, Draw, CreateDeviceAuthorizationRequest, create_authorization, create_device,
  new_authorization, approve_body, approve_for, poll_body, poll_row, poll_ready, claim,
  device_clash, poll, refresh, approve, admit, in_tenant, refresh_body, refresh_row, refresh_usable,
  rotate,
}
use promptlens_v.Device.Poll.{expire, rest, consume, with_id, with_pending, with_approved}

-- One step of the life of an authorization. Approved, it can only be consumed; expired, denied or
-- consumed, it stays so.
pub data Advances : DeviceAuthorizationStatus → DeviceAuthorizationStatus → Type 0 where
  stays : (t : DeviceAuthorizationStatus) → Advances t t
  approves : Advances DeviceAuthorizationStatus.pending DeviceAuthorizationStatus.approved
  expires : Advances DeviceAuthorizationStatus.pending DeviceAuthorizationStatus.expired
  consumes : Advances DeviceAuthorizationStatus.approved DeviceAuthorizationStatus.consumed

pub record Moves (a b : DeviceAuthorization) : Type 0 where
  pub same_id : b.id ≡ a.id
  pub same_code : b.device_code_hash ≡ a.device_code_hash
  pub same_challenge : b.code_challenge ≡ a.code_challenge
  pub same_expiry : b.expires_at ≡ a.expires_at
  pub status : Advances a.status b.status

pub data Evolves (rows : List DeviceAuthorization) (rows' : List DeviceAuthorization) : Type 0 where
  same : rows' ≡ rows → Evolves rows rows'
  changed :
      (p : DeviceAuthorization → Bool) (f : DeviceAuthorization → DeviceAuthorization)
      → rows' ≡ change p f rows
      → ((x : DeviceAuthorization) → In x rows → p x ≡ true → Moves x (f x))
      → Evolves rows rows'
  added :
      (a : DeviceAuthorization)
      → rows' ≡ rows ++ a ∷ []
      → any (device_clash a) rows ≡ false
      → a.status ≡ DeviceAuthorizationStatus.pending
      → Evolves rows rows'

-- The id and the device code are keys of the table.
pub record IsKeyed (rows : List DeviceAuthorization) : Type 0 where
  pub by_id : IsKey (λ x. x.id) rows
  pub by_code : IsKey (λ x. x.device_code_hash) rows

status_of_is_pending :
    (t : DeviceAuthorizationStatus) → is_pending t ≡ true → t ≡ DeviceAuthorizationStatus.pending
status_of_is_pending t h = ground arith

Advances-expired :
    {t : DeviceAuthorizationStatus}
    → t ≡ DeviceAuthorizationStatus.pending
    → Advances t DeviceAuthorizationStatus.expired
Advances-expired e = rw e expires

Advances-approved :
    {t : DeviceAuthorizationStatus}
    → t ≡ DeviceAuthorizationStatus.pending
    → Advances t DeviceAuthorizationStatus.approved
Advances-approved e = rw e approves

Advances-consumed :
    {t : DeviceAuthorizationStatus}
    → t ≡ DeviceAuthorizationStatus.approved
    → Advances t DeviceAuthorizationStatus.consumed
Advances-consumed e = rw e consumes

module _ (db : Prisma) (crypto : Crypto) where
  poll_row_devices :
      (a : DeviceAuthorization) (v : Option String) (d : Draw) (s : Db)
      → let rows = (commit s (poll_row db crypto (some a) v d s)).1.devices in
        (rows ≡ s.devices)
        ⊎ (rows ≡ change (with_pending a) expire s.devices)
        ⊎ ((a.status ≡ DeviceAuthorizationStatus.pending)
            × (rows ≡ change (with_id a) (rest d) s.devices))
        ⊎ (rows ≡ change (with_approved a) (consume d) s.devices)
  unfolding poll_row poll_ready claim
  poll_row_devices a v d s = ground (
    arith,
    db.update_many_lem (with_pending a) expire s.devices,
    db.update_lem (with_id a) (rest d) s.devices,
    db.update_many_lem (with_approved a) (consume d) s.devices,
  )

  -- A poll changes one authorization at most: it expires a pending one, notes the time on a pending
  -- one, or consumes an approved one.
  poll_row-Evolves :
      (a : DeviceAuthorization) (v : Option String) (d : Draw) (s : Db)
      → Evolves s.devices (commit s (poll_row db crypto (some a) v d s)).1.devices
  poll_row-Evolves a v d s = elim (poll_row_devices a v d s) [
    | inl e ↦ same e
    | inr (inl e) ↦ changed (with_pending a) expire e (λ x _ h. record {
      same_id = refl;
      same_code = refl;
      same_challenge = refl;
      same_expiry = refl;
      status = Advances-expired (ground arith);
    })
    | inr (inr (inl (w, e))) ↦ changed (with_id a) (rest d) e (λ x _ h. record {
      same_id = refl;
      same_code = refl;
      same_challenge = refl;
      same_expiry = refl;
      status = stays x.status;
    })
    | inr (inr (inr e)) ↦ changed (with_approved a) (consume d) e (λ x _ h. record {
      same_id = refl;
      same_code = refl;
      same_challenge = refl;
      same_expiry = refl;
      status = Advances-consumed (ground arith);
    })
  ]

  pub poll_found-Evolves :
      (o : Option DeviceAuthorization) (v : Option String) (d : Draw) (s : Db)
      → Evolves s.devices (commit s (poll_row db crypto o v d s)).1.devices
  unfolding poll_row
  poll_found-Evolves none v d s = same refl
  poll_found-Evolves (some a) v d s = poll_row-Evolves a v d s

  pub poll-Evolves :
      (code : String) (v : Option String) (d : Draw) (s : Db)
      → Evolves s.devices (poll db crypto code v d s).1.devices
  unfolding poll poll_body
  poll-Evolves code v d s = rw db.transaction_lem (poll_found-Evolves _ v d s)

  refresh_devices :
      (token : String) (d : Draw) (s : Db) → (refresh db crypto token d s).1.devices ≡ s.devices
  unfolding refresh refresh_body refresh_row refresh_usable rotate
  refresh_devices token d s = rw db.transaction_lem (ground arith)

  approve_for_devices :
      (actor : AuthenticatedActor) (project id : ℕ) (a : DeviceAuthorization) (s : Db) (p : Project)
      → db.find_first (in_tenant actor project) s.projects ≡ some p
      → let rows = (commit s (approve_for db crypto actor project a id s)).1.devices in
        (rows ≡ s.devices) ⊎ (rows ≡ change (with_id a) (admit actor p.id id) s.devices)
  unfolding approve_for
  approve_for_devices actor project id a s p e =
      ground (arith, db.update_lem (with_id a) (admit actor p.id id) s.devices)

  approve_for-Evolves :
      (actor : AuthenticatedActor) (project id : ℕ) (a : DeviceAuthorization) (s : Db)
      → IsKeyed s.devices
      → In a s.devices
      → is_pending a.status ≡ true
      → Evolves s.devices (commit s (approve_for db crypto actor project a id s)).1.devices
  approve_for-Evolves actor project id a s keyed here pending =
      elim (Option-cases (db.find_first (in_tenant actor project) s.projects)) [
        | inl e ↦ unfold approve_for in rw (e, approve_for) (same refl)
        | inr (p, e) ↦ elim (approve_for_devices actor project id a s p e) [
          | inl e' ↦ same e'
          | inr e' ↦ changed (with_id a) (admit actor p.id id) e' (λ x i h. record {
            same_id = refl;
            same_code = refl;
            same_challenge = refl;
            same_expiry = refl;
            status = Advances-approved (admitted x i h);
          })
        ]
      ]
    where
      admitted :
          (x : DeviceAuthorization)
          → In x s.devices
          → with_id a x ≡ true
          → x.status ≡ DeviceAuthorizationStatus.pending
      admitted x i h =
          rw (keyed.by_id x a i here ((nat_eq_iff x.id a.id).0 h))
            (status_of_is_pending a.status pending)

  -- Past its expiry an authorization is not approved, and the attempt to record that is undone.
  approve_body-Evolves :
      (actor : AuthenticatedActor) (code : String) (project now id : ℕ) (s : Db)
      → IsKeyed s.devices
      → Evolves s.devices (commit s (approve_body db crypto actor code project now id s)).1.devices
  unfolding approve_body
  approve_body-Evolves actor code project now id s keyed = elim (Option-cases row) [
    | inl e ↦ rw (e, approve_body) (same refl)
    | inr (a, e) ↦ elim (Bool-cases (is_pending a.status)) [
      | inr w ↦ rw (e, approve_body, w) (same refl)
      | inl w ↦ elim (Bool-cases (leb a.expires_at now)) [
        | inl late ↦ same (ground arith)
        | inr early ↦
            rw (e, approve_body, w, early)
              (approve_for-Evolves actor project id a s keyed (db.found _ s.devices a e).1 w)
      ]
    ]
  ]
    where
      row : Option DeviceAuthorization
      row = db.find_first (λ b. b.user_code == crypto.to_upper_case code) s.devices

  pub approve-Evolves :
      (actor : AuthenticatedActor) (code : String) (project now id : ℕ) (s : Db)
      → IsKeyed s.devices
      → Evolves s.devices (approve db crypto actor code project now id s).1.devices
  unfolding approve
  approve-Evolves actor code project now id s keyed =
      rw db.transaction_lem (approve_body-Evolves actor code project now id s keyed)

  pub refresh-Evolves :
      (token : String) (d : Draw) (s : Db)
      → Evolves s.devices (refresh db crypto token d s).1.devices
  refresh-Evolves token d s = same (refresh_devices token d s)

  new_row :
      CreateDeviceAuthorizationRequest
      → (now id : ℕ) (code user_code : String) → DeviceAuthorization
  new_row = new_authorization db crypto

  create_devices :
      (r : CreateDeviceAuthorizationRequest) (now id : ℕ) (code user_code : String) (s : Db)
      → any (device_clash (new_row r now id code user_code)) s.devices ≡ false
      → (create_device db crypto r now id code user_code s).1.devices
        ≡ s.devices ++ new_row r now id code user_code ∷ []
  unfolding create_device create_authorization new_row
  create_devices r now id code user_code s h =
      ground (arith, db.create_lem device_clash (new_row r now id code user_code) s.devices)

  create_devices_clash :
      (r : CreateDeviceAuthorizationRequest) (now id : ℕ) (code user_code : String) (s : Db)
      → any (device_clash (new_row r now id code user_code)) s.devices ≡ true
      → (create_device db crypto r now id code user_code s).1.devices ≡ s.devices
  unfolding create_device create_authorization new_row
  create_devices_clash r now id code user_code s h =
      ground (arith, db.create_lem device_clash (new_row r now id code user_code) s.devices)

  pub create-Evolves :
      (r : CreateDeviceAuthorizationRequest) (now id : ℕ) (code user_code : String) (s : Db)
      → Evolves s.devices (create_device db crypto r now id code user_code s).1.devices
  unfolding new_row new_authorization
  create-Evolves r now id code user_code s =
      elim (Bool-cases (any (device_clash (new_row r now id code user_code)) s.devices)) [
        | inl clash ↦ same (create_devices_clash r now id code user_code s clash)
        | inr free ↦
            added (new_row r now id code user_code) (create_devices r now id code user_code s free)
              free refl
      ]
