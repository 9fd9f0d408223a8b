-- ===== src/Device/Race/Tokens.antt =====
-- How the calls of `DeviceAuthorizationService` change the credentials.
use promptlens_v.Prelude.{
  ◌≡◌, refl, Bool, false, ◌∙◌, List, [], ◌∷◌, ◌++◌, Bool-cases, inl, inr, In, In-append_left,
  change, change-In, any, if◌then◌else◌, is_none, ℕ_eq,
}
use promptlens_v.Schema.{ConnectorCredential}
use promptlens_v.Device.{Draw, credential_clash, used, withdrawn, replaced}
use promptlens_v.Device.Refresh.{IsKeyed}
use promptlens_v.Device.Rotation.{change-IsKeyed, append-IsKeyed}

-- A change that keeps the ids, the refresh tokens and what was used.
pub record Marks (f : ConnectorCredential → ConnectorCredential) : Type 0 where
  pub same_id : (x : ConnectorCredential) → (f x).id ≡ x.id
  pub same_token : (x : ConnectorCredential) → (f x).refresh_token_hash ≡ x.refresh_token_hash
  pub still_used :
      (x : ConnectorCredential) → is_none x.used_at ≡ false → is_none (f x).used_at ≡ false

-- Credentials are marked or added, never taken away.
pub data Turns : List ConnectorCredential → List ConnectorCredential → Type 0 where
  same : {rows : List ConnectorCredential} → Turns rows rows
  marks :
      {rows rows' : List ConnectorCredential} (p : ConnectorCredential → Bool)
      (f : ConnectorCredential → ConnectorCredential)
      → Marks f
      → Turns (change p f rows) rows'
      → Turns rows rows'
  adds :
      {rows rows' : List ConnectorCredential} (c : ConnectorCredential)
      → any (credential_clash c) rows ≡ false
      → Turns (rows ++ c ∷ []) rows'
      → Turns rows rows'

pub Turns-IsKeyed :
    (rows rows' : List ConnectorCredential) → Turns rows rows' → IsKeyed rows → IsKeyed rows'
Turns-IsKeyed rows rows' same k = k
Turns-IsKeyed rows rows' (marks p f m rest) k =
    Turns-IsKeyed _ rows' rest (change-IsKeyed p f rows m.same_id m.same_token k)
Turns-IsKeyed rows rows' (adds c free rest) k =
    Turns-IsKeyed _ rows' rest (append-IsKeyed c rows free k)

-- What becomes of a credential.
pub record Later (x y : ConnectorCredential) : Type 0 where
  pub same_id : y.id ≡ x.id
  pub same_token : y.refresh_token_hash ≡ x.refresh_token_hash
  pub still_used : is_none x.used_at ≡ false → is_none y.used_at ≡ false

Later-refl : (x : ConnectorCredential) → Later x x
Later-refl x = record { same_id = refl; same_token = refl; still_used = λ h. h }

Later-trans : (x y z : ConnectorCredential) → Later x y → Later y z → Later x z
Later-trans x y z a b = record {
  same_id = b.same_id ∙ a.same_id;
  same_token = b.same_token ∙ a.same_token;
  still_used = λ h. b.still_used (a.still_used h);
}

marked-Later :
    (p : ConnectorCredential → Bool) (f : ConnectorCredential → ConnectorCredential)
    (x : ConnectorCredential)
    → Marks f
    → Later x (if p x then f x else x)
marked-Later p f x m = elim (Bool-cases (p x)) [
  | inl e ↦
      rw e
        (record { same_id = m.same_id x; same_token = m.same_token x; still_used = m.still_used x })
  | inr e ↦ rw e (Later-refl x)
]

pub Turns-Later :
    (x : ConnectorCredential) (rows rows' : List ConnectorCredential)
    → Turns rows rows'
    → In x rows
    → (y : ConnectorCredential) × In y rows' × Later x y
Turns-Later x rows rows' same i = (x, i, Later-refl x)
Turns-Later x rows rows' (marks p f m rest) i =
    let (y, j, l) = Turns-Later (if p x then f x else x) _ rows' rest (change-In p f x rows i) in
    (y, j, Later-trans x _ y (marked-Later p f x m) l)
Turns-Later x rows rows' (adds c free rest) i =
    Turns-Later x _ rows' rest (In-append_left x rows (c ∷ []) i)

pub Marks-used : (d : Draw) → Marks (used d)
Marks-used d = record { same_id = λ x. refl; same_token = λ x. refl; still_used = λ x h. refl }

pub Marks-withdrawn : (d : Draw) → Marks (withdrawn d)
Marks-withdrawn d = record { same_id = λ x. refl; same_token = λ x. refl; still_used = λ x h. h }

pub Marks-replaced : (d : Draw) → Marks (replaced d)
Marks-replaced d = record { same_id = λ x. refl; same_token = λ x. refl; still_used = λ x h. h }
