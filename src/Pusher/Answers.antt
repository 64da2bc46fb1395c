-- ===== src/Pusher/Answers.antt =====
-- When the pushers of pkg/synchronizer/restpusher.go and gnmipusher.go succeed, and what they leave
-- of the state.
use fabric_adapter.Base.{
  ◌≤◌, ◌<◌, ◌≡◌, ◌↔◌, [], ◌∷◌, ◌++◌, ok, Result-cases, ret, arith, inl, inr, Keeps, Keeps-bind,
  Keeps-modify, Keeps-lift, keeps, gets,
}
use fabric_adapter.Pusher.{GnmiPusher, set_request, checked, record_call, send, gnmi_push_update}
use fabric_adapter.World.{HttpRequest, HttpResponse, Call, http_call, gnmi_call, Services, World}

module _ (S : Services) where
  abbrev pub recorded : Call → World S.Sids → World S.Sids
  recorded c w = record w { calls = w.calls ++ c ∷ [] }

  -- what a predicate keeps that does not speak of the calls
  pub Keeps-send :
      (P : World S.Sids → Type 0) (req : HttpRequest)
      → ((c : Call) (w : World S.Sids) → P w → P (recorded c w))
      → Keeps P (send S req)
  unfolding send record_call
  Keeps-send P req k = Keeps-bind P _ _ (Keeps-lift P (S.new_request req.method req.url)) (λ _.
      Keeps-bind P (gets (λ w. w.calls)) _ (keeps (λ w h. h)) (λ before.
        Keeps-bind P _ _ (Keeps-modify P _ (k (http_call req))) (λ _.
          Keeps-bind P _ _ (Keeps-lift P (S.http_do before req))
            (λ resp. Keeps-lift P (checked req.method req.url resp)))))

  -- A request to ONOS returns without an error exactly when it is valid and is answered with a
  -- status from 200 to 299; then the one change of the state is that the request has joined the
  -- calls.
  pub send-ret_iff :
      (req : HttpRequest) (w w' : World S.Sids)
      → (send S req w ≡ ret tt w') ↔ (
          (S.new_request req.method req.url ≡ ok tt)
          × (w' ≡ recorded (http_call req) w)
          × ((resp : HttpResponse) × (S.http_do w.calls req ≡ ok resp)
              × (200 ≤ resp.status_code)
              × (resp.status_code < 300)))
  unfolding send record_call
  send-ret_iff req w w' = elim (Result-cases (S.new_request req.method req.url)) [
    | inl (e, p) ↦ (
      λ h. absurd (ground (arith, p, h)),
      λ (valid, same, answer). absurd (ground (arith, p, valid)),
    )
    | inr (tt, p) ↦ elim (Result-cases (S.http_do w.calls req)) [
      | inl (e, q) ↦ (
        λ h. absurd (ground (arith, p, q, h)),
        λ (valid, same, (resp, answered, low, high)). absurd (ground (arith, q, answered)),
      )
      | inr (resp, q) ↦ (
        λ h. (
          p,
          ground (arith, p, q, h),
          (resp, q, ground (arith, p, q, h), ground (arith, p, q, h)),
        ),
        λ (valid, same, (resp', answered, low, high)).
            ground (arith, p, q, valid, same, answered, low, high),
      )
    ]
  ]

  -- A gNMI push returns without an error exactly when the target answers without one; then the
  -- one change of the state is that the request has joined the calls.
  pub gnmi_push_update-ret_iff :
      (p : GnmiPusher) (w w' : World S.Sids)
      → (gnmi_push_update S p w ≡ ret tt w') ↔ (
          (S.gnmi_set w.calls p.endpoint p.target p.secure (set_request p) ≡ ok tt)
          × (w' ≡ recorded (gnmi_call p.endpoint p.target p.secure (set_request p)) w))
  unfolding gnmi_push_update record_call
  gnmi_push_update-ret_iff p w w' =
      elim (Result-cases (S.gnmi_set w.calls p.endpoint p.target p.secure (set_request p))) [
        | inl (e, q) ↦ (λ h. absurd (ground (arith, q, h)), λ h. absurd (ground (arith, q, h.0)))
        | inr (tt, q) ↦ (λ h. (q, ground (arith, q, h)), λ h. ground (arith, q, h.1))
      ]
