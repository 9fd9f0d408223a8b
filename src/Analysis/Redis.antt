-- ===== src/Analysis/Redis.antt =====
-- The commands of Redis that AnalysisControls calls (apps/worker/src/analysis/analysis-controls.ts), with
-- laws, and a memory that meets them.
use promptlens_v.Prelude.{
  ℕ, suc, String, Bool, false, ◌&&◌, Option, none, some, ◌+◌, ◌*◌, ◌==◌, ℕ_eq, String_eq, leb,
  if◌then◌else◌, ◌≡◌, refl,
}

-- The counters of a minute's calls and of recent failures, told apart by their prefix.
pub data CounterKey : Type 0 where
  rate : (tenant_id : ℕ) (provider_name : String) (minute : ℕ) → CounterKey
  failures : (provider_name : String) → CounterKey

abbrev pub key_eq : CounterKey → CounterKey → Bool
key_eq (CounterKey.rate t p m) (CounterKey.rate t' p' m') = t == t' && (p == p' && m == m')
key_eq (CounterKey.failures p) (CounterKey.failures p') = p == p'
key_eq (CounterKey.rate t p m) (CounterKey.failures p') = false
key_eq (CounterKey.failures p) (CounterKey.rate t' p' m') = false

pub record Counter : Type 0 where
  pub value : ℕ
  pub deadline : Option ℕ

pub record Word : Type 0 where
  pub word : String
  pub deadline : ℕ

-- A key whose time has come is gone.
abbrev pub counted : ℕ → Option Counter → Option Counter
counted now none = none
counted now (some c) = elim c.deadline [
  | none ↦ some c
  | some t ↦ if leb t now then none else some c
]

abbrev pub spoken : ℕ → Option Word → Option String
spoken now none = none
spoken now (some w) = if leb w.deadline now then none else some w.word

abbrev pub value_of : Option Counter → ℕ
value_of none = 0
value_of (some c) = c.value

abbrev pub deadline_of : Option Counter → Option ℕ
deadline_of none = none
deadline_of (some c) = c.deadline

-- What INCR leaves, and what EXPIRE leaves.
abbrev pub bumped : ℕ → Option Counter → Option Counter
bumped now o =
    let c = counted now o in some (record { value = suc (value_of c); deadline = deadline_of c })

abbrev pub timed : (now seconds : ℕ) → Option Counter → Option Counter
timed now seconds o = elim (counted now o) [
  | none ↦ none
  | some c ↦ some (record c { deadline = some (now + seconds * 1000) })
]

pub record AnalysisControlStore (K : Type 0) : Type 0 where
  pub get : (now : ℕ) (provider_name : String) → K → Option String
  pub incr : (now : ℕ) → CounterKey → K → ℕ × K
  pub expire : (now : ℕ) → CounterKey → (seconds : ℕ) → K → K
  pub set : (now : ℕ) (provider_name value : String) (seconds : ℕ) → K → K
  -- The data under a key, and what each command makes of it.
  pub counter : CounterKey → K → Option Counter
  pub circuit : String → K → Option Word
  pub get_lem : (now : ℕ) (p : String) (k : K) → get now p k ≡ spoken now (circuit p k)
  pub incr_value :
      (now : ℕ) (key : CounterKey) (k : K)
      → (incr now key k).0 ≡ suc (value_of (counted now (counter key k)))
  pub incr_counter :
      (now : ℕ) (key other : CounterKey) (k : K)
      → counter other (incr now key k).1
        ≡ (if key_eq other key then bumped now (counter key k) else counter other k)
  pub incr_circuit :
      (now : ℕ) (key : CounterKey) (p : String) (k : K) → circuit p (incr now key k).1 ≡ circuit p k
  pub expire_counter :
      (now seconds : ℕ) (key other : CounterKey) (k : K)
      → counter other (expire now key seconds k)
        ≡ (if key_eq other key then timed now seconds (counter key k) else counter other k)
  pub expire_circuit :
      (now seconds : ℕ) (key : CounterKey) (p : String) (k : K)
      → circuit p (expire now key seconds k) ≡ circuit p k
  pub set_counter :
      (now seconds : ℕ) (p v : String) (key : CounterKey) (k : K)
      → counter key (set now p v seconds k) ≡ counter key k
  pub set_circuit :
      (now seconds : ℕ) (p v other : String) (k : K)
      → circuit other (set now p v seconds k) ≡ (
          if other == p
          then some (record { word = v; deadline = now + seconds * 1000 })
          else circuit other k)

-- A store in memory.
pub record MemoryStore : Type 0 where
  pub counters : CounterKey → Option Counter
  pub circuits : String → Option Word

abbrev pub empty_store : MemoryStore
empty_store = record { counters = λ key. none; circuits = λ p. none }

abbrev pub memory_store : AnalysisControlStore MemoryStore
memory_store = record {
  get = λ now p k. spoken now (k.circuits p);
  incr = λ now key k. (
    suc (value_of (counted now (k.counters key))),
    record k {
      counters =
          λ other. if key_eq other key then bumped now (k.counters key) else k.counters other;
    },
  );
  expire = λ now key seconds k. record k {
    counters =
        λ other. if key_eq other key then timed now seconds (k.counters key) else k.counters other;
  };
  set = λ now p v seconds k. record k {
    circuits = λ other.
        if other == p
        then some (record { word = v; deadline = now + seconds * 1000 })
        else k.circuits other;
  };
  counter = λ key k. k.counters key;
  circuit = λ p k. k.circuits p;
  get_lem = λ now p k. refl;
  incr_value = λ now key k. refl;
  incr_counter = λ now key other k. refl;
  incr_circuit = λ now key p k. refl;
  expire_counter = λ now seconds key other k. refl;
  expire_circuit = λ now seconds key p k. refl;
  set_counter = λ now seconds p v key k. refl;
  set_circuit = λ now seconds p v other k. refl;
}
