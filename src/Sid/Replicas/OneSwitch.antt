-- ===== src/Sid/Replicas/OneSwitch.antt =====
-- Any number of callers of `Get` (pkg/store/store.go) at once: a SID belongs to one switch.
use fabric_adapter.Base.{
  ℕ, ◌+◌, ◌^◌, ◌<◌, ◌≡◌, sym, none, List, ◌∷◌, ◌++◌, Text, lookup, text_eq, All, All-map, arith,
}
use mathlib.Core.Path.{subst}
use fabric_adapter.Sid.Replicas.{
  looking, counting, storing, System, Step, call, find, miss, count, store, Reach, here, next,
  start,
}
use fabric_adapter.Sid.Replicas.Owned.{
  IsOwned, CallerIsOwned, IsConsistent, All-at, All-without, All-replace, fits, found_owned,
  extended, extended_owned, extended_caller, new_owned, extended_counted, put_owned, Step-le,
}

Step-IsConsistent :
    {s t : System} → Step s t → t.memory.value < 2 ^ 32 → IsConsistent s → IsConsistent t
Step-IsConsistent (call id h) few i = record {
  owner = i.owner;
  counted = i.counted;
  stored = i.stored;
  pending = (tt, i.pending);
  given = i.given;
  enough = i.enough;
}
Step-IsConsistent {s} (find ps qs id value n c h e) few i = record {
  owner = i.owner;
  counted = i.counted;
  stored = i.stored;
  pending =
      All-without _ ps qs (looking id)
        (subst (All (CallerIsOwned i.owner s.memory.value)) c i.pending);
  given = (found_owned i id value n few h e, i.given);
  enough = i.enough;
}
Step-IsConsistent {s} (miss ps qs id c h) few i = record {
  owner = i.owner;
  counted = i.counted;
  stored = i.stored;
  pending =
      All-replace _ ps qs (looking id) (counting id) tt
        (subst (All (CallerIsOwned i.owner s.memory.value)) c i.pending);
  given = i.given;
  enough = i.enough;
}
Step-IsConsistent {s} (count ps qs id c) few i = record {
  owner = extended i id;
  counted = extended_counted i id;
  stored =
      λ j b e. let (n, same, owned) = i.stored j b e in (n, same, extended_owned i id (j, n) owned);
  pending = All-replace _ ps qs (counting id) (storing id (s.memory.value + 1)) (new_owned i id) (
      All-map _ _ _ (subst (All (CallerIsOwned i.owner s.memory.value)) c i.pending)
        (extended_caller i id));
  given = All-map _ _ s.answers i.given (extended_owned i id);
  enough = omega (arith, i.enough);
}
Step-IsConsistent {s} (store ps qs id n c) few i =
    let callers = subst (All (CallerIsOwned i.owner s.memory.value)) c i.pending in
    let owned = All-at (CallerIsOwned i.owner s.memory.value) ps qs (storing id n) callers in
    record {
      owner = i.owner;
      counted = i.counted;
      stored = put_owned i id n owned few;
      pending = All-without _ ps qs (storing id n) callers;
      given = (
        subst (λ k. IsOwned i.owner s.memory.value (id, k)) (sym (fits n owned.2 few)) owned,
        i.given,
      );
      enough = i.enough;
    }

start-IsConsistent : IsConsistent start
unfolding lookup
start-IsConsistent = record {
  owner = λ n. none;
  counted = λ n id e. absurd (ground (arith, e));
  stored = λ id b e. absurd (ground (arith, e));
  pending = tt;
  given = tt;
  enough = omega arith;
}

Reach-IsConsistent : {s : System} → Reach start s → s.memory.value < 2 ^ 32 → IsConsistent s
Reach-IsConsistent here few = start-IsConsistent
Reach-IsConsistent (next r st) few =
    Step-IsConsistent st few (Reach-IsConsistent r (omega (arith, Step-le st, few)))

-- From a new store, whatever the order in which any number of callers of Get read the map, count
-- and write, two switches are never given one SID, as long as the counter fits in 32 bits; no
-- call fails, and no other replica sets the counter meanwhile.
pub one_switch :
    {s : System}
    → Reach start s
    → s.memory.value < 2 ^ 32
    → (ps qs rs us : List (Text × ℕ)) (i j : Text) (n : ℕ) → s.answers ≡ ps ++ (i, n) ∷ qs
    → s.answers ≡ rs ++ (j, n) ∷ us
    → i ≡ j
one_switch {s} r few ps qs rs us i j n e f =
    let c = Reach-IsConsistent r few in
    let first =
      All-at (IsOwned c.owner s.memory.value) ps qs (i, n)
        (subst (All (IsOwned c.owner s.memory.value)) e c.given) in
    let second =
      All-at (IsOwned c.owner s.memory.value) rs us (j, n)
        (subst (All (IsOwned c.owner s.memory.value)) f c.given) in
    ground (arith, first.0, second.0)
