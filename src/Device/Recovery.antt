-- ===== src/Device/Recovery.antt =====
-- Services that refuse pushes at first, and single pushes to them (pkg/synchronizer/restpusher.go and
-- gnmipusher.go).
use fabric_adapter.Base.{
  ℕ, ◌+◌, ◌<◌, ◌≤◌, ◌≡◌, Bool, false, Option, ◌⊎◌, inl, inr, List, [], ◌∷◌, ◌++◌, Text, codes,
  length, length-append, text_eq, Error, ok, Result-cases, Bool-cases, leb, Outcome, ret, fail,
  arith, push_error,
}
use fabric_adapter.Pusher.{
  bad_status, update_request, set_request, RestPusher, GnmiPusher, rest_push_update,
  gnmi_push_update,
}
use fabric_adapter.Onos.{Pushes}
use fabric_adapter.Device.Willing.{AreReachable}
use fabric_adapter.World.{
  http_call, gnmi_call, HttpRequest, HttpResponse, SetRequest, Call, Services, World,
}

-- Services that can be reached, and that answer a push with success once `n` pushes were made.
pub record AreRecovering (n : ℕ) (S : Services) : Type 0 where
  pub reachable : AreReachable S
  pub posted :
      (before : List Call) (req : HttpRequest)
      → n ≤ length before
      → (r : HttpResponse) × (S.http_do before req ≡ ok r) × (bad_status r.status_code ≡ false)
  pub set :
      (before : List Call) (endpoint target : Text) (secure : Bool) (req : SetRequest)
      → n ≤ length before
      → S.gnmi_set before endpoint target secure req ≡ ok tt

module _ (n : ℕ) (S : Services) (h : AreRecovering n S) where
  abbrev pub made : World S.Sids → ℕ
  made w = length w.calls

  -- How a push ends.
  pub data PushEnd (w : World S.Sids) (o : Outcome (World S.Sids) (Unit {0})) : Type 0 where
    pushed : (v : World S.Sids) → o ≡ ret tt v → made v ≡ made w + 1 → PushEnd w o
    refused :
        (e : Error) (v : World S.Sids)
        → o ≡ fail e v
        → made v ≡ made w + 1
        → made w < n
        → PushEnd w o

  early : (k : ℕ) → ¬ (n ≤ k) → k < n
  early k late = elim (Bool-cases (leb n k)) [
    | inl e ↦ absurd (late (ground (arith, e)))
    | inr e ↦ ground (arith, e)
  ]

  pub rest-PushEnd : (p : RestPusher) (w : World S.Sids) → PushEnd w (rest_push_update S p w)
  unfolding rest_push_update
  rest-PushEnd p w =
      let asked = h.reachable.requested (codes "POST") p.endpoint in
      let call = http_call (update_request p) in
      let after : World S.Sids = record w { calls = w.calls ++ call ∷ [] } in
      elim (Result-cases (S.http_do w.calls (update_request p))) [
        | inl (e, r) ↦
            refused e after (ground (arith, asked, r)) (length-append w.calls (call ∷ [])) (
              early (made w)
                (λ late. ground (arith, r, (h.posted w.calls (update_request p) late).1)))
        | inr (r, q) ↦ elim (Bool-cases (bad_status r.status_code)) [
          | inl bad ↦
              refused (push_error (codes "POST") p.endpoint r.status_code r.status) after
                (ground (arith, asked, q, bad)) (length-append w.calls (call ∷ []))
                (early (made w) (λ late.
                  let (s, answered, good) = h.posted w.calls (update_request p) late in
                  ground (arith, q, answered, good, bad)))
          | inr good ↦
              pushed after (ground (arith, asked, q, good)) (length-append w.calls (call ∷ []))
        ]
      ]

  pub gnmi-PushEnd : (p : GnmiPusher) (w : World S.Sids) → PushEnd w (gnmi_push_update S p w)
  unfolding gnmi_push_update
  gnmi-PushEnd p w =
      let call = gnmi_call p.endpoint p.target p.secure (set_request p) in
      let after : World S.Sids = record w { calls = w.calls ++ call ∷ [] } in
      elim (Result-cases (S.gnmi_set w.calls p.endpoint p.target p.secure (set_request p))) [
        | inl (e, r) ↦
            refused (push_error (codes "SET") p.endpoint 500 (S.error_text e)) after
              (ground (arith, r)) (length-append w.calls (call ∷ []))
              (early (made w) (λ late.
                ground (arith, r, h.set w.calls p.endpoint p.target p.secure (set_request p) late)))
        | inr (u, r) ↦ pushed after (ground (arith, r)) (length-append w.calls (call ∷ []))
      ]

  -- Failed pushes are counted only in calls that began before the recovery, and made some.
  abbrev pub Gains : World S.Sids → World S.Sids → ℕ → Type 0
  Gains w v k = (made w ≤ made v) × ((k ≡ 0) ⊎ ((made w < made v) × (made w < n)))

  abbrev pub Advances : World S.Sids → Outcome (World S.Sids) Pushes → Type 0
  Advances w o =
      (k : ℕ) × (x : Option Error) × (v : World S.Sids) × (o ≡ ret (k, x) v) × Gains w v k

  -- one part after another
  pub Gains-sum : (w u v : World S.Sids) (j k : ℕ) → Gains w u j → Gains u v k → Gains w v (j + k)
  Gains-sum w u v j k g l = ground (arith, g, l)
