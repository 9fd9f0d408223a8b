-- ===== src/Store/Overlap.antt =====
-- Transactions that read first and go on later. Under READ COMMITTED, the isolation of the program's
-- transactions, a row stands as it was read while others act; a conditional update locks the rows it
-- changes and tests them anew, so a transaction that writes one such table goes on in one step.
use promptlens_v.Prelude.{
  ℕ, String, ◌≡◌, ◌≤◌, ◌⊎◌, refl, subst, Option, none, some, List, [], ◌∷◌, arith, Bool-cases,
  Option-cases, inl, inr, In, count, ◌==◌, ℕ_eq, String_eq, if◌then◌else◌,
}

-- What can happen to a state: calls as a whole, and transactions in two parts. Both tell which key
-- they have exchanged, if any.
pub record Service : Type 1 where
  pub State : Type 0
  pub Whole : Type 0
  pub Request : Type 0
  pub Reading : Type 0
  pub whole : Whole → State → Option String × State
  pub read : Request → State → Reading
  pub go_on : Reading → State → Option String × State

pub record Overlap (service : Service) : Type 0 where
  pub state : service.State
  pub readings : ℕ → Option service.Reading
  pub exchanged : List String

pub data Event (service : Service) : Type 0 where
  calls : service.Whole → Event service
  reads : (ticket : ℕ) → service.Request → Event service
  resumes : (ticket : ℕ) → Event service

abbrev pub noted : Option String → List String → List String
noted none exchanged = exchanged
noted (some key) exchanged = key ∷ exchanged

module _ (service : Service) where
  abbrev pub hold :
      (ticket : ℕ)
      → Option service.Reading
      → (ℕ → Option service.Reading)
      → ℕ
      → Option service.Reading
  hold ticket r readings i = if i == ticket then r else readings i

  abbrev after :
      (ℕ → Option service.Reading) → Option String × service.State → List String → Overlap service
  after readings x exchanged = record {
    state = x.1;
    readings = readings;
    exchanged = noted x.0 exchanged;
  }

  unfoldable pub overlap_step : Event service → Overlap service → Overlap service
  overlap_step (calls c) o = after o.readings (service.whole c o.state) o.exchanged
  overlap_step (reads ticket request) o = record o {
    readings = hold ticket (some (service.read request o.state)) o.readings;
  }
  overlap_step (resumes ticket) o = elim (o.readings ticket) [
    | none ↦ o
    | some r ↦ after (hold ticket none o.readings) (service.go_on r o.state) o.exchanged
  ]

  unfoldable pub overlap : List (Event service) → Overlap service → Overlap service
  overlap [] o = o
  overlap (e ∷ es) o = overlap es (overlap_step e o)

  abbrev pub quiet : service.State → Overlap service
  quiet s = record { state = s; readings = λ i. none; exchanged = [] }

  -- What a step from `s` to `s'` keeps, and what it finds and leaves where it exchanges a key.
  pub record Keeps (Good : service.State → Type 0) (Held : service.Reading → service.State → Type 0)
      (Open Spent : String → service.State → Type 0) (s : service.State)
      (x : Option String × service.State) : Type 0 where
    pub good : Good x.1
    pub held : (r : service.Reading) → Held r s → Held r x.1
    pub still_spent : (key : String) → Spent key s → Spent key x.1
    pub exchange : (key : String) → x.0 ≡ some key → Open key s × Spent key x.1

  -- Why a key is exchanged once: spent keys stay spent, and only open ones are exchanged.
  pub record Guard : Type 1 where
    pub Good : service.State → Type 0
    pub Held : service.Reading → service.State → Type 0
    pub Open : String → service.State → Type 0
    pub Spent : String → service.State → Type 0
    pub exclusive :
        {X : Type 0} (key : String) (s : service.State) → Good s → Spent key s → Open key s → X
    pub read_held : (q : service.Request) (s : service.State) → Good s → Held (service.read q s) s
    pub whole_keeps :
        (c : service.Whole) (s : service.State)
        → Good s
        → Keeps Good Held Open Spent s (service.whole c s)
    pub go_on_keeps :
        (r : service.Reading) (s : service.State)
        → Good s
        → Held r s
        → Keeps Good Held Open Spent s (service.go_on r s)

listed_or_absent : (key : String) (l : List String) → In key l ⊎ (count (λ k. k == key) l ≡ 0)
listed_or_absent key [] = inr refl
listed_or_absent key (k ∷ l) = ground (arith, String_eq.same_iff k key, listed_or_absent key l)

module _ (service : Service) (guard : Guard service) where
  open guard use {Good, Held, Open, Spent}

  record IsSound (o : Overlap service) : Type 0 where
    pub good : Good o.state
    pub readings : (t : ℕ) (r : service.Reading) → o.readings t ≡ some r → Held r o.state
    pub still_spent : (key : String) → In key o.exchanged → Spent key o.state
    pub once : (key : String) → count (λ k. k == key) o.exchanged ≤ 1

  hold-Held :
      (ticket : ℕ) (new : Option service.Reading) (readings : ℕ → Option service.Reading)
      (s : service.State)
      → ((r : service.Reading) → new ≡ some r → Held r s)
      → ((t : ℕ) (r : service.Reading) → readings t ≡ some r → Held r s)
      → (t : ℕ) (r : service.Reading) → hold service ticket new readings t ≡ some r
      → Held r s
  hold-Held ticket new readings s fresh old t r h = elim (Bool-cases (t == ticket)) [
    | inl e ↦ fresh r (rw e at h)
    | inr e ↦ old t r (rw e at h)
  ]

  -- A key that is exchanged was not exchanged before.
  fresh_key :
      (o : Overlap service) (key : String)
      → IsSound o
      → Open key o.state
      → count (λ k. k == key) o.exchanged ≡ 0
  fresh_key o key sound is_open = elim (listed_or_absent key o.exchanged) [
    | inl listed ↦ guard.exclusive key o.state sound.good (sound.still_spent key listed) is_open
    | inr absent ↦ absent
  ]

  stepped-IsSound :
      (o : Overlap service) (readings : ℕ → Option service.Reading)
      (x : Option String × service.State)
      → IsSound o
      → Keeps service Good Held Open Spent o.state x
      → ((t : ℕ) (r : service.Reading) → readings t ≡ some r → Held r x.1)
      → IsSound (after service readings x o.exchanged)
  stepped-IsSound o readings (none, s') sound keeps held = record {
    good = keeps.good;
    readings = held;
    still_spent = λ key i. keeps.still_spent key (sound.still_spent key i);
    once = sound.once;
  }
  stepped-IsSound o readings (some key, s') sound keeps held =
      let (is_open, spends) = keeps.exchange key refl in
      record {
        good = keeps.good;
        readings = held;
        still_spent = λ k i. elim i [
          | inl is_key ↦ subst (λ z. Spent z s') is_key spends
          | inr old ↦ keeps.still_spent k (sound.still_spent k old)
        ];
        once = λ k.
            ground (arith, fresh_key o key sound is_open, sound.once k, String_eq.same_iff key k);
      }

  overlap_step-IsSound :
      (e : Event service) (o : Overlap service) → IsSound o → IsSound (overlap_step service e o)
  unfolding overlap_step
  overlap_step-IsSound (calls c) o sound =
      let keeps = guard.whole_keeps c o.state sound.good in
      stepped-IsSound o o.readings (service.whole c o.state) sound keeps
        (λ t r h. keeps.held r (sound.readings t r h))
  overlap_step-IsSound (reads ticket request) o sound = record {
    good = sound.good;
    readings =
        hold-Held ticket (some (service.read request o.state)) o.readings o.state
          (λ r h.
            subst (λ z. Held (or_else z) o.state) h (guard.read_held request o.state sound.good))
          sound.readings;
    still_spent = sound.still_spent;
    once = sound.once;
  }
    where
      or_else : Option service.Reading → service.Reading
      or_else none = service.read request o.state
      or_else (some r) = r
  overlap_step-IsSound (resumes ticket) o sound = elim (Option-cases (o.readings ticket)) [
    | inl nothing ↦ rw (overlap_step, nothing) sound
    | inr (r, e) ↦
        let keeps = guard.go_on_keeps r o.state sound.good (sound.readings ticket r e) in
        rw (overlap_step, e)
          (stepped-IsSound o (hold service ticket none o.readings) (service.go_on r o.state) sound
            keeps
            (hold-Held ticket none o.readings _ (λ x h. absurd (ground arith))
              (λ t x h. keeps.held x (sound.readings t x h))))
  ]

  overlap-IsSound :
      (es : List (Event service)) (o : Overlap service) → IsSound o → IsSound (overlap service es o)
  unfolding overlap
  overlap-IsSound [] o sound = sound
  overlap-IsSound (e ∷ es) o sound = overlap-IsSound es _ (overlap_step-IsSound e o sound)

  -- From a good state, a key is exchanged at most once, however the transactions overlap.
  pub exchanged_once :
      (es : List (Event service)) (s : service.State) (key : String)
      → Good s
      → count (λ k. k == key) (overlap service es (quiet service s)).exchanged ≤ 1
  exchanged_once es s key good = (overlap-IsSound es (quiet service s) start).once key
    where
      start : IsSound (quiet service s)
      start = record {
        good = good;
        readings = λ t r h. absurd (ground arith);
        still_spent = λ k i. absurd i;
        once = λ k. omega arith;
      }
