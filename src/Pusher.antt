-- ===== src/Pusher.antt =====
-- pkg/synchronizer/restpusher.go and gnmipusher.go: `PushUpdate` and `PushDelete` of the two pushers.
-- A request that is sent joins `calls`, whatever its answer. The context and its timeout are part of
-- the service that answers.
pub mod Answers
use fabric_adapter.Base.{
  ℕ, Bool, true, false, ◌||◌, Option, none, some, List, [], ◌∷◌, ◌++◌, Text, codes, decimal,
  text_eq, ltb, leb, ◌==◌, if◌then◌else◌, Error, push_error, Result, ok, err, Go, pure, raise, lift,
  gets, modify, ◌>>=◌, ◌>>◌,
}
use fabric_adapter.World.{
  HttpRequest, HttpResponse, SetRequest, Call, http_call, gnmi_call, Services, World,
}

-- `RESTPusher`
pub record RestPusher : Type 0 where
  pub endpoint : Text
  pub username : Text
  pub password : Text
  pub body : Text

-- `GNMIPusher`, with what `newClient` keeps of the client that it makes
pub record GnmiPusher : Type 0 where
  pub endpoint : Text
  pub path : Text
  pub payload : Text
  pub target : Text
  pub secure : Bool

-- `NewRestPusher`
abbrev pub new_rest_pusher : Text → Text → Text → Text → RestPusher
new_rest_pusher url username password body = record {
  endpoint = url;
  username = username;
  password = password;
  body = body;
}

-- `NewGNMIPusher`, with the client of `newClient`
abbrev pub new_gnmi_pusher : Text → Text → Text → Text → Bool → GnmiPusher
new_gnmi_pusher url target payload path secure = record {
  endpoint = url;
  path = path;
  payload = payload;
  target = target;
  secure = secure;
}

-- `(resp.StatusCode < 200) || (resp.StatusCode >= 300)`
abbrev pub bad_status : ℕ → Bool
bad_status code = ltb code 200 || leb 300 code

abbrev pub update_request : RestPusher → HttpRequest
update_request p = record {
  method = codes "POST";
  url = p.endpoint;
  basic_auth = some (p.username, p.password);
  content_type = some (codes "application/json;charset=utf-8");
  body = p.body;
}

abbrev pub delete_request : RestPusher → HttpRequest
delete_request p = record {
  method = codes "DELETE";
  url = p.endpoint;
  basic_auth = none;
  content_type = none;
  body = [];
}

-- The `Update` of `GNMIPusher.PushUpdate`; a path that is empty has no element.
abbrev pub set_request : GnmiPusher → SetRequest
set_request p = record {
  elem = if p.path == [] then [] else p.path ∷ [];
  target = p.target;
  bytes_val = p.payload;
}

-- the test of the status in the answer
abbrev pub checked : Text → Text → HttpResponse → Result (Unit {0})
checked operation endpoint resp =
    if bad_status resp.status_code
    then err (push_error operation endpoint resp.status_code resp.status)
    else ok tt

-- `err.Error()`
abbrev pub set_answer : (Error → Text) → Text → Result (Unit {0}) → Result (Unit {0})
set_answer text endpoint (ok u) = ok tt
set_answer text endpoint (err e) = err (push_error (codes "SET") endpoint 500 (text e))

-- `PushError.Error`
unfoldable pub push_error_text : Text → Text → ℕ → Text → Text
push_error_text operation endpoint status_code status =
    codes "Push Error op="
    ++ (operation
        ++ (codes " endpoint="
            ++ (endpoint
                ++ (codes " code=" ++ (decimal status_code ++ (codes " status=" ++ status))))))

module _ (S : Services) where
  open S use {Sids, new_request, http_do, gnmi_set, error_text}

  unfoldable pub record_call : Call → Go (World Sids) (Unit {0})
  record_call c = modify (λ w. record w { calls = w.calls ++ c ∷ [] })

  -- `http.NewRequest`, `client.Do` and the test of the status
  unfoldable pub send : HttpRequest → Go (World Sids) (Unit {0})
  unfolding record_call
  send req = do
    lift (new_request req.method req.url)
    before ← gets (λ w. w.calls)
    record_call (http_call req)
    resp ← lift (http_do before req)
    lift (checked req.method req.url resp)

  -- `RESTPusher.PushUpdate` and `RESTPusher.PushDelete`
  unfoldable pub rest_push_update : RestPusher → Go (World Sids) (Unit {0})
  unfolding send
  rest_push_update p = send (update_request p)

  unfoldable pub rest_push_delete : RestPusher → Go (World Sids) (Unit {0})
  unfolding send
  rest_push_delete p = send (delete_request p)

  -- `GNMIPusher.PushUpdate`, and `GNMIPusher.PushDelete`, which does nothing
  unfoldable pub gnmi_push_update : GnmiPusher → Go (World Sids) (Unit {0})
  unfolding record_call
  gnmi_push_update p = do
    before ← gets (λ w. w.calls)
    record_call (gnmi_call p.endpoint p.target p.secure (set_request p))
    lift (
        set_answer error_text p.endpoint
          (gnmi_set before p.endpoint p.target p.secure (set_request p)))

  unfoldable pub gnmi_push_delete : GnmiPusher → Go (World Sids) (Unit {0})
  gnmi_push_delete p = pure tt

-- `PusherInterface`, and the two pushers as values of it
pub record PusherInterface (W : Type 0) : Type 0 where
  pub push_update : Go W (Unit {0})
  pub push_delete : Go W (Unit {0})

module _ (S : Services) where
  abbrev pub rest_pusher : RestPusher → PusherInterface (World S.Sids)
  rest_pusher p = record { push_update = rest_push_update S p; push_delete = rest_push_delete S p }

  abbrev pub gnmi_pusher : GnmiPusher → PusherInterface (World S.Sids)
  gnmi_pusher p = record { push_update = gnmi_push_update S p; push_delete = gnmi_push_delete S p }
