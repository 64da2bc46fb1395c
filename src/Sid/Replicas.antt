-- ===== src/Sid/Replicas.antt =====
-- `Get` of pkg/store/store.go by any number of callers at once, such as replicas of the adapter that
-- share one Atomix whose counter is set. A step is one call of the counter or of the map, none of which
-- fails; no replica runs `NewAtomixStore` meanwhile.
pub mod Owned
pub mod OneSwitch
use fabric_adapter.Base.{
  ℕ, ◌+◌, ◌^◌, ◌≤◌, ◌<◌, ◌≡◌, refl, sym, ap, false, Option, none, some, List, [], ◌∷◌, ◌++◌, Text,
  lookup, insert, lookup-insert, text_eq, text_eqb, text_eqb_iff, if◌then◌else◌, nat_eqb,
  nat_eqb_iff, All, All-map, arith, Bool-cases, inl, inr,
}
use mathlib.Core.Path.{subst}
use fabric_adapter.Util.{u32}
use fabric_adapter.Sid.{uint32_to_bytes, bytes_to_uint32}
use fabric_adapter.Sid.Reliable.{Memory}
use fabric_adapter.Sid.Unique.{bytes_to_uint32-uint32_to_bytes}

-- Where a caller stands: at the read of the map, at the counter after the map had no entry, or at the
-- write of the number that it was given.
pub data Caller : Type 0 where
  looking counting : Text → Caller
  storing : Text → ℕ → Caller

-- the shared Atomix, the callers, and the answers that were given
pub record System : Type 0 where
  pub memory : Memory
  pub callers : List Caller
  pub answers : List (Text × ℕ)

pub data Step (s : System) : System → Type 0 where
  -- a new call for a switch with a name
  call :
      (id : Text) → text_eqb id [] ≡ false → Step s (record s { callers = looking id ∷ s.callers })
  -- an entry is found, and its SID returned
  find :
      (ps qs : List Caller) (id : Text) (value : List ℕ) (n : ℕ)
      → s.callers ≡ ps ++ looking id ∷ qs
      → lookup id s.memory.entries ≡ some value
      → bytes_to_uint32 value ≡ some n
      → Step s (record s { callers = ps ++ qs; answers = (id, n) ∷ s.answers })
  miss :
      (ps qs : List Caller) (id : Text)
      → s.callers ≡ ps ++ looking id ∷ qs
      → lookup id s.memory.entries ≡ none
      → Step s (record s { callers = ps ++ counting id ∷ qs })
  -- `Increment`
  count :
      (ps qs : List Caller) (id : Text)
      → s.callers ≡ ps ++ counting id ∷ qs
      → Step s (record s {
        memory = record s.memory { value = s.memory.value + 1 };
        callers = ps ++ storing id (s.memory.value + 1) ∷ qs;
      })
  -- `Put`, and the return
  store :
      (ps qs : List Caller) (id : Text) (n : ℕ)
      → s.callers ≡ ps ++ storing id n ∷ qs
      → Step s (record s {
        memory = record s.memory { entries = insert id (uint32_to_bytes (u32 n)) s.memory.entries };
        callers = ps ++ qs;
        answers = (id, u32 n) ∷ s.answers;
      })

pub data Reach (s : System) : System → Type 0 where
  here : Reach s s
  next : {t u : System} → Reach s t → Step t u → Reach s u

-- as `NewAtomixStore` leaves a new counter
abbrev pub start : System
start = record { memory = record { value = 100; entries = [] }; callers = []; answers = [] }

-- the state after two callers for one switch both found no entry
abbrev pub twice_given : Text → System
twice_given id = record {
  memory = record { value = 102; entries = (id, uint32_to_bytes 102) ∷ [] };
  callers = [];
  answers = (id, 102) ∷ (id, 101) ∷ [];
}

-- When two calls for one switch overlap, the switch can be given two SIDs, 101 and 102, of which
-- the second stays in the map.
pub two_sids : (id : Text) → text_eqb id [] ≡ false → Reach start (twice_given id)
unfolding insert lookup uint32_to_bytes
two_sids id h = subst (Reach start) (ground (arith, text_eqb_iff id id)) (
    next
      (next
        (next
          (next
            (next
              (next (next (next here (call id h)) (call id h))
                (miss [] (looking id ∷ []) id refl refl))
              (miss (counting id ∷ []) [] id refl refl))
            (count [] (counting id ∷ []) id refl))
          (count (storing id 101 ∷ []) [] id refl))
        (store [] (storing id 102 ∷ []) id 101 refl))
      (store [] [] id 102 refl))
