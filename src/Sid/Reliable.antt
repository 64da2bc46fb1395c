-- ===== src/Sid/Reliable.antt =====
-- The documented behaviour of the Atomix counter and map (pkg/store/store.go relies on it), and an
-- in-memory one that has it.
use fabric_adapter.Base.{
  ℕ, ◌+◌, ◌≡◌, refl, true, Option, none, some, List, [], Text, Dict, lookup, insert, lookup-insert,
  text_eq, text_eqb, if◌then◌else◌, Error, external, Outcome, ret, fail,
}
use fabric_adapter.Sid.{Atomix}

-- No call fails. A read returns what is stored, or an error that counts as "not found"; a write
-- changes what it names and nothing else.
pub record IsReliable (X : Atomix) : Type 1 where
  pub value : X.State → ℕ
  pub entry : Text → X.State → Option (List ℕ)
  pub found :
      (k : Text) (s : X.State) (b : List ℕ) → entry k s ≡ some b → X.map_get k s ≡ ret (some b) s
  pub missing : Error
  pub not_found : X.is_not_found missing ≡ true
  pub absent : (k : Text) (s : X.State) → entry k s ≡ none → X.map_get k s ≡ fail missing s
  pub next : X.State → X.State
  pub incremented : (s : X.State) → X.increment 1 s ≡ ret (value s + 1) (next s)
  pub value-next : (s : X.State) → value (next s) ≡ value s + 1
  pub entry-next : (k : Text) (s : X.State) → entry k (next s) ≡ entry k s
  pub stored : Text → List ℕ → X.State → X.State
  pub put : (k : Text) (b : List ℕ) (s : X.State) → X.map_put k b s ≡ ret tt (stored k b s)
  pub value-stored : (k : Text) (b : List ℕ) (s : X.State) → value (stored k b s) ≡ value s
  pub entry-stored :
      (k j : Text) (b : List ℕ) (s : X.State)
      → entry j (stored k b s) ≡ (if text_eqb k j then some b else entry j s)

pub record Memory : Type 0 where
  pub value : ℕ
  pub entries : Dict Text (List ℕ)

abbrev memory_get : Option (List ℕ) → Memory → Outcome Memory (Option (List ℕ))
memory_get none s = fail (external []) s
memory_get (some b) s = ret (some b) s

abbrev pub in_memory : Atomix
in_memory = record {
  State = Memory;
  counter_get = λ s. ret s.value s;
  counter_set = λ n s. ret tt (record s { value = n });
  increment = λ n s. ret (s.value + n) (record s { value = s.value + n });
  map_get = λ k s. memory_get (lookup k s.entries) s;
  map_put = λ k b s. ret tt (record s { entries = insert k b s.entries });
  open_counter = λ k s. ret tt s;
  open_map = λ k s. ret tt s;
  close_counter = λ s. ret tt s;
  close_map = λ s. ret tt s;
  is_not_found = λ e. true;
}

pub found_in_memory :
    (k : Text) (s : Memory) (b : List ℕ)
    → lookup k s.entries ≡ some b
    → memory_get (lookup k s.entries) s ≡ ret (some b) s
found_in_memory k s b e = rw e

pub absent_in_memory :
    (k : Text) (s : Memory)
    → lookup k s.entries ≡ none
    → memory_get (lookup k s.entries) s ≡ fail (external []) s
absent_in_memory k s e = rw e

abbrev pub memory_reliable : IsReliable in_memory
memory_reliable = record {
  value = λ s. s.value;
  entry = λ k s. lookup k s.entries;
  found = found_in_memory;
  missing = external [];
  not_found = refl;
  absent = absent_in_memory;
  next = λ s. record s { value = s.value + 1 };
  incremented = λ s. refl;
  value-next = λ s. refl;
  entry-next = λ k s. refl;
  stored = λ k b s. record s { entries = insert k b s.entries };
  put = λ k b s. refl;
  value-stored = λ k b s. refl;
  entry-stored = λ k j b s. lookup-insert k j b s.entries;
}
