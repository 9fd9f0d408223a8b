-- ===== src/Device/History.antt =====
-- Histories of calls on `DeviceAuthorizationService`: a device code is exchanged for tokens once.
use promptlens_v.Prelude.{
  keyed_change, keyed_append, ℕ, String, ◌≡◌, refl, sym, ◌∙◌, ap, subst, ◌≢◌, Bool, true, false,
  Option, List, [], ◌∷◌, arith, Bool-cases, inl, inr, any, In, ℕ_eq, String_eq, nat_eq_iff, change,
  In-change, In-append_one, In-append_left, change-In, false_of_In, if◌then◌else◌,
}
use promptlens_v.Store.{Prisma, ok}
use promptlens_v.Schema.{Db, DeviceAuthorization, DeviceAuthorizationStatus}
use promptlens_v.Actor.{AuthenticatedActor}
use promptlens_v.Device.{
  Crypto, Draw, CreateDeviceAuthorizationRequest, ConnectorTokenResponse, create_device, approve,
  poll, refresh, device_clash,
}
use promptlens_v.Device.Poll.{Issue, poll-Issue, with_approved, consume}
use promptlens_v.Device.Lifecycle.{
  Advances, stays, approves, expires, consumes, Moves, Evolves, same, changed, added, IsKeyed,
  create-Evolves, approve-Evolves, poll-Evolves, refresh-Evolves,
}

pub data Call : Type 0 where
  creates : CreateDeviceAuthorizationRequest → (now id : ℕ) (code user_code : String) → Call
  approves_code : AuthenticatedActor → (user_code : String) (project now id : ℕ) → Call
  polls : (code : String) (verifier : Option String) → Draw → Call
  refreshes : (token : String) → Draw → Call

module _ (db : Prisma) (crypto : Crypto) where
  unfoldable pub step : Call → Db → Db
  step (creates r now id code user_code) s = (create_device db crypto r now id code user_code s).1
  step (approves_code actor code project now id) s =
      (approve db crypto actor code project now id s).1
  step (polls code v d) s = (poll db crypto code v d s).1
  step (refreshes token d) s = (refresh db crypto token d s).1

  pub run : List Call → Db → Db
  run [] s = s
  run (c ∷ cs) s = run cs (step c s)

  -- Every call keeps or moves the authorizations along their life (pending to approved or expired,
  -- approved to consumed) and leaves ids, device codes, challenges and expiry times alone, or adds one
  -- pending authorization that clashes with none; ids and device codes are keys of the table.
  pub step-Evolves : (c : Call) (s : Db) → IsKeyed s.devices → Evolves s.devices (step c s).devices
  unfolding step
  step-Evolves (creates r now id code user_code) s k =
      create-Evolves db crypto r now id code user_code s
  step-Evolves (approves_code actor code project now id) s k =
      approve-Evolves db crypto actor code project now id s k
  step-Evolves (polls code v d) s k = poll-Evolves db crypto code v d s
  step-Evolves (refreshes token d) s k = refresh-Evolves db crypto token d s

-- A row of the new table: it was there and has moved, or it is the new pending row.
pub data Came (rows : List DeviceAuthorization) (y : DeviceAuthorization) : Type 0 where
  moved : (x : DeviceAuthorization) → In x rows → Moves x y → Came rows y
  fresh :
      any (device_clash y) rows ≡ false → y.status ≡ DeviceAuthorizationStatus.pending → Came rows y

Moves-refl : (x : DeviceAuthorization) → Moves x x
Moves-refl x = record {
  same_id = refl;
  same_code = refl;
  same_challenge = refl;
  same_expiry = refl;
  status = stays x.status;
}

pub moved_by :
    (p : DeviceAuthorization → Bool) (f : DeviceAuthorization → DeviceAuthorization)
    (rows : List DeviceAuthorization)
    → ((x : DeviceAuthorization) → In x rows → p x ≡ true → Moves x (f x))
    → (x : DeviceAuthorization) → In x rows
    → Moves x (if p x then f x else x)
moved_by p f rows h x i = elim (Bool-cases (p x)) [
  | inl e ↦ rw e (h x i e)
  | inr e ↦ rw e (Moves-refl x)
]

differs_id : (a x : DeviceAuthorization) → device_clash a x ≡ false → a.id ≢ x.id
differs_id a x h e = ground (arith, nat_eq_iff a.id x.id)

differs_code :
    (a x : DeviceAuthorization) → device_clash a x ≡ false → a.device_code_hash ≢ x.device_code_hash
differs_code a x h e = ground (arith, String_eq.same_iff a.device_code_hash x.device_code_hash)

pub Evolves-IsKeyed :
    (rows rows' : List DeviceAuthorization) → Evolves rows rows' → IsKeyed rows → IsKeyed rows'
Evolves-IsKeyed rows rows' (same e) k = rw e k
Evolves-IsKeyed rows rows' (changed p f e moves) k = rw e (record {
  by_id = keyed_change (λ x. x.id) rows k.by_id p f (λ x i. (moved_by p f rows moves x i).same_id);
  by_code =
      keyed_change (λ x. x.device_code_hash) rows k.by_code p f
        (λ x i. (moved_by p f rows moves x i).same_code);
})
Evolves-IsKeyed rows rows' (added a e free new) k = rw e (record {
  by_id =
      keyed_append (λ x. x.id) rows k.by_id a
        (λ x i. differs_id a x (false_of_In (device_clash a) x rows free i));
  by_code =
      keyed_append (λ x. x.device_code_hash) rows k.by_code a
        (λ x i. differs_code a x (false_of_In (device_clash a) x rows free i));
})

abbrev pub is_final : DeviceAuthorizationStatus → Bool
is_final DeviceAuthorizationStatus.pending = false
is_final DeviceAuthorizationStatus.approved = false
is_final _ = true

Advances-final :
    {t u : DeviceAuthorizationStatus} → Advances t u → is_final t ≡ true → is_final u ≡ true
Advances-final (stays t) h = h
Advances-final approves h = cc
Advances-final expires h = cc
Advances-final consumes h = cc

pub final_not_approved :
    {t : DeviceAuthorizationStatus} → is_final t ≡ true → t ≢ DeviceAuthorizationStatus.approved
final_not_approved h e = ground arith

-- The device code was handed out, and no authorization under it can be exchanged any more.
pub record IsSpent (hash : String) (rows : List DeviceAuthorization) : Type 0 where
  pub known : (x : DeviceAuthorization) × In x rows × (x.device_code_hash ≡ hash)
  pub final :
      (x : DeviceAuthorization) → In x rows → x.device_code_hash ≡ hash → is_final x.status ≡ true

pub Evolves-IsSpent :
    (hash : String) (rows rows' : List DeviceAuthorization)
    → Evolves rows rows'
    → IsSpent hash rows
    → IsSpent hash rows'
Evolves-IsSpent hash rows rows' (same e) s = rw e s
Evolves-IsSpent hash rows rows' (changed p f e moves) s =
    let (x, i, h) = s.known in
    rw e (record {
      known = (
        if p x then f x else x,
        change-In p f x rows i,
        (moved_by p f rows moves x i).same_code ∙ h,
      );
      final = λ y j h'.
          let (z, k, ez) = In-change p f y rows j in
          let m : Moves z (if p z then f z else z) = moved_by p f rows moves z k in
          subst (λ w. is_final w.status ≡ true) ez
            (Advances-final m.status
              (s.final z k (sym m.same_code ∙ ap (λ w. w.device_code_hash) ez ∙ h')));
    })
Evolves-IsSpent hash rows rows' (added a e free new) s =
    let (x, i, h) = s.known in
    rw e (record {
      known = (x, In-append_left x rows (a ∷ []) i, h);
      final = λ y j h'. elim (In-append_one y a rows j) [
        | inl old ↦ s.final y old h'
        | inr is_new ↦ absurd (
            differs_code a x (false_of_In (device_clash a) x rows free i)
              (ap (λ w. w.device_code_hash) is_new ∙ h' ∙ sym h))
      ];
    })

consumed_code :
    (a x : DeviceAuthorization) (d : Draw)
    → (if with_approved a x then consume d x else x).device_code_hash ≡ x.device_code_hash
consumed_code a x d = ground arith

consumed_final :
    (a x : DeviceAuthorization) (d : Draw)
    → x.id ≡ a.id
    → x.status ≡ DeviceAuthorizationStatus.approved
    → is_final (if with_approved a x then consume d x else x).status ≡ true
consumed_final a x d e h = ground (arith, nat_eq_iff x.id a.id)

-- A claim that finds its authorization `x` approved spends the code, though it tests for the id of a
-- row `a` that was read before.
pub claim-IsSpent :
    (hash : String) (a x : DeviceAuthorization) (d : Draw) (rows : List DeviceAuthorization)
    → IsKeyed rows
    → In x rows
    → x.id ≡ a.id
    → x.device_code_hash ≡ hash
    → x.status ≡ DeviceAuthorizationStatus.approved
    → IsSpent hash (change (with_approved a) (consume d) rows)
claim-IsSpent hash a x d rows keyed there same_id named approved = record {
  known = (_, change-In (with_approved a) (consume d) x rows there, consumed_code a x d ∙ named);
  final = λ y j h.
      let (z, k, ez) = In-change (with_approved a) (consume d) y rows j in
      let code_z : z.device_code_hash ≡ hash =
        sym (consumed_code a z d) ∙ ap (λ w. w.device_code_hash) ez ∙ h in
      let one : x ≡ z = keyed.by_code x z there k (named ∙ sym code_z) in
      subst (λ w. is_final w.status ≡ true)
        (ap (λ w. if with_approved a w then consume d w else w) one ∙ ez)
        (consumed_final a x d same_id approved);
}

module _ (db : Prisma) (crypto : Crypto) where
  pub Issue-IsSpent :
      (code : String) (v : Option String) (d : Draw) (s s' : Db) (r : ConnectorTokenResponse)
      → IsKeyed s.devices
      → Issue db crypto code v d s s' r
      → IsSpent (crypto.digest code) s'.devices
  Issue-IsSpent code v d s s' r keyed issue =
      let a = issue.authorization in
      rw issue.after (
        claim-IsSpent (crypto.digest code) a a d s.devices keyed issue.there refl issue.named
          issue.approved)

  run-IsSpent :
      (hash : String) (cs : List Call) (s : Db)
      → IsKeyed s.devices
      → IsSpent hash s.devices
      → IsSpent hash (run db crypto cs s).devices
  unfolding run
  run-IsSpent hash [] s k spent = spent
  run-IsSpent hash (c ∷ cs) s k spent =
      let e = step-Evolves db crypto c s k in
      run-IsSpent hash cs (step db crypto c s) (Evolves-IsKeyed _ _ e k)
        (Evolves-IsSpent hash _ _ e spent)

  pub run-IsKeyed :
      (cs : List Call) (s : Db) → IsKeyed s.devices → IsKeyed (run db crypto cs s).devices
  unfolding run
  run-IsKeyed [] s k = k
  run-IsKeyed (c ∷ cs) s k =
      run-IsKeyed cs (step db crypto c s) (Evolves-IsKeyed _ _ (step-Evolves db crypto c s k) k)

  pub spent_refused :
      (code : String) (v : Option String) (d : Draw) (s : Db) (r : ConnectorTokenResponse)
      → IsSpent (crypto.digest code) s.devices
      → (poll db crypto code v d s).0 ≢ ok r
  spent_refused code v d s r spent h =
      let issue = poll-Issue db crypto code v d s r h in
      let over = spent.final issue.authorization issue.there issue.named in
      absurd (final_not_approved over issue.approved)

  -- Once a poll has exchanged a device code for tokens, no later poll with that code does, with any
  -- verifier and after any history of calls on the service; ids and device codes are keys of the
  -- table at the start.
  pub poll_once :
      (code : String) (v v' : Option String) (d d' : Draw) (s : Db) (r r' : ConnectorTokenResponse)
      (cs : List Call)
      → IsKeyed s.devices
      → (poll db crypto code v d s).0 ≡ ok r
      → (poll db crypto code v' d' (run db crypto cs (poll db crypto code v d s).1)).0 ≢ ok r'
  poll_once code v v' d d' s r r' cs keyed issued =
      let s1 = (poll db crypto code v d s).1 in
      let keyed1 : IsKeyed s1.devices =
        Evolves-IsKeyed _ _ (poll-Evolves db crypto code v d s) keyed in
      let spent = Issue-IsSpent code v d s s1 r keyed (poll-Issue db crypto code v d s r issued) in
      spent_refused code v' d' (run db crypto cs s1) r'
        (run-IsSpent (crypto.digest code) cs s1 keyed1 spent)
