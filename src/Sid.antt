-- ===== src/Sid.antt =====
-- pkg/store/store.go: the segment ids of the switches, in an Atomix counter and an Atomix map.
pub mod Reliable
pub mod Unique
pub mod Calls
pub mod Series
pub mod Replicas
use fabric_adapter.Base.{
  ℕ, ◌+◌, ◌*◌, ◌/◌, ◌%◌, ◌^◌, ◌≡◌, ◌≤◌, ◌<◌, Bool, Option, none, some, List, [], ◌∷◌, Text, codes,
  text_eq, ltb, ◌==◌, if◌then◌else◌, Error, invalid_id, Outcome, ret, fail, panic, continue, Go,
  pure, raise, deref, ◌>>=◌, ◌>>◌,
}
use fabric_adapter.Util.{u32}

-- The client of the Atomix counter and map, on the state behind them. Nothing decrements the
-- counter, so that its int64 is a natural number. `map_get` may return no entry with no error.
pub record Atomix : Type 1 where
  pub State : Type 0
  pub counter_get : Go State ℕ
  pub counter_set : ℕ → Go State (Unit {0})
  pub increment : ℕ → Go State ℕ
  pub map_get : Text → Go State (Option (List ℕ))
  pub map_put : Text → List ℕ → Go State (Unit {0})
  pub open_counter : Text → Go State (Unit {0})
  pub open_map : Text → Go State (Unit {0})
  pub close_counter : Go State (Unit {0})
  pub close_map : Go State (Unit {0})
  pub is_not_found : Error → Bool

-- `uint32ToBytes`: little endian
unfoldable pub uint32_to_bytes : ℕ → List ℕ
uint32_to_bytes i = i % 256 ∷ i / 256 % 256 ∷ i / 65536 % 256 ∷ i / 16777216 % 256 ∷ []

-- `bytesToUint32`: fewer than four bytes panic
unfoldable pub bytes_to_uint32 : List ℕ → Option ℕ
bytes_to_uint32 (a ∷ b ∷ c ∷ d ∷ rest) = some (a + b * 256 + c * 65536 + d * 16777216)
bytes_to_uint32 _ = none

abbrev pub sid_counter : Text
sid_counter = codes "fabric-adapter-sid-counter"

abbrev pub sid_map : Text
sid_map = codes "fabric-adapter-sid-map"

-- `SIDStore`
pub record SidStore (W : Type 0) : Type 0 where
  pub get : Text → Go W ℕ
  pub close : Go W (Unit {0})

module _ (X : Atomix) where
  open X use {
    State, counter_get, counter_set, increment, map_get, map_put, open_counter, open_map,
    close_counter, close_map, is_not_found,
  }

  -- `NewAtomixStore`: the first 100 SIDs are reserved
  unfoldable pub new_atomix_store : Go State (Unit {0})
  new_atomix_store = do
    open_counter sid_counter
    starting_value ← counter_get
    (if ltb starting_value 100 then counter_set 100 else pure tt)
    open_map sid_map

  -- a new SID, stored for the switch
  unfoldable pub allocate : Text → Go State ℕ
  allocate switch_id = do
    new_sid ← increment 1
    map_put switch_id (uint32_to_bytes (u32 new_sid))
    pure (u32 new_sid)

  -- what `Get` does with the answer of the map: an error other than "not found" is returned, and so
  -- is SID 0 when there is neither an entry nor an error
  abbrev on_entry : Text → Outcome State (Option (List ℕ)) → Outcome State ℕ
  on_entry switch_id (ret (some value) s) = deref (bytes_to_uint32 value) s
  on_entry switch_id (ret none s) = ret 0 s
  on_entry switch_id (fail e s) = if is_not_found e then allocate switch_id s else fail e s
  on_entry switch_id panic = panic

  -- `Get`
  unfoldable pub get : Text → Go State ℕ
  get switch_id s =
      if switch_id == [] then fail invalid_id s else on_entry switch_id (map_get switch_id s)

  -- `Close`
  unfoldable pub close : Go State (Unit {0})
  close = do close_counter; close_map

  -- `SIDStore`, as this store implements it
  abbrev pub sid_store : SidStore State
  sid_store = record { get = get; close = close }
