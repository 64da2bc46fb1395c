-- ===== src/GnmiClient.antt =====
-- pkg/synchronizer/gnmiclient.go: the client of the gNMI pusher, a wrapper of the openconfig client
-- library and of gRPC, which are a parameter.
use fabric_adapter.Base.{
  ℕ, ◌≡◌, Bool, true, false, Option, none, some, List, [], ◌∷◌, Text, Error, Result, ok, err,
  Outcome, ret, fail, panic, Go, pure, deref, ◌>>=◌, wrap_err, wrapped, continue, if◌then◌else◌,
  arith,
}
use fabric_adapter.World.{SetRequest}

-- `baseClient.Destination`, with a TLS configuration by its certificate; the timeout is in seconds
pub record Destination : Type 0 where
  pub addrs : List Text
  pub target : Text
  pub tls : Option Text
  pub timeout : ℕ

-- The libraries. A nil connection and a nil client can be handed to them, and what happens then is
-- theirs. `W` is their state.
pub record GnmiLibrary : Type 1 where
  pub W : Type 0
  pub Conn : Type 0
  pub Connected : Type 0
  pub Response : Type 0
  pub key_pair : Result Text
  pub dial : Text → Option Text → Go W Conn
  pub new_from_conn : Option Conn → Destination → Go W Connected
  pub set : Option Connected → SetRequest → Go W Response
  pub get : Option Connected → Text → Go W Response
  pub capabilities : Option Connected → Go W Response
  pub poll : Option Connected → Go W (Unit {0})
  pub close : Option Connected → Go W (Unit {0})
  pub from_grpc : Error → Error

-- `if err != nil { log.Error(err) }`: the value is then nil
abbrev or_nil {ℓ κ} : {W : Type ℓ} {A : Type κ} → Outcome W A → Outcome W (Option A)
or_nil (ret a w) = ret (some a) w
or_nil (fail e w) = ret none w
or_nil panic = panic

-- a deferred call, whose error is dropped: it runs after a value and after an error
abbrev deferred {ℓ κ} : {W : Type ℓ} {A : Type κ} → Go W (Unit {0}) → Outcome W A → Outcome W A
deferred last (ret a w) = continue (or_nil (last w)) (λ _. pure a)
deferred last (fail e w) = continue (or_nil (last w)) (λ _. fail e)
deferred last panic = panic

abbrev first_of : List Text → Option Text
first_of [] = none
first_of (x ∷ xs) = some x

module _ (L : GnmiLibrary) where
  open L use {W, Conn, Connected, Response, key_pair, from_grpc}

  -- `client`
  pub record Client : Type 0 where
    pub client : Option Connected
    pub dest : Text
    pub secure : Bool
    pub target : Text

  -- `newClient`
  abbrev pub new_client : Text → Text → Bool → Client
  new_client dest target secure = record {
    client = none;
    dest = dest;
    secure = secure;
    target = target;
  }

  -- `getClientCredentials`
  unfoldable pub get_client_credentials : Bool → Result (Option Text)
  get_client_credentials true = elim key_pair [ ok cert ↦ ok (some cert) | err e ↦ err e ]
  get_client_credentials false = ok none

  -- `getDestination`
  unfoldable pub get_destination : Client → Bool → Result Destination
  unfolding get_client_credentials
  get_destination c use_secure = elim (get_client_credentials use_secure) [
    | ok creds ↦ ok (record { addrs = c.dest ∷ []; target = c.target; tls = creds; timeout = 10 })
    | err e ↦ err e
  ]

  abbrev or_empty : Result Destination → Destination
  or_empty (ok d) = d
  or_empty (err e) = record { addrs = []; target = []; tls = none; timeout = 0 }

  -- `getGNMIClient`: every error is logged, and the next call is made all the same
  unfoldable pub get_gnmi_client : Client → Go W (Option Connected)
  unfolding get_destination
  get_gnmi_client c = do
    let dest = or_empty (get_destination c c.secure)
    address ← deref (first_of dest.addrs)
    conn ← λ w. or_nil (L.dial address (if c.secure then dest.tls else none) w)
    λ w. or_nil (L.new_from_conn conn dest w)

  -- `Set`, with the client that it leaves in the receiver
  unfoldable pub client_set : Client → SetRequest → Go W (Client × Response)
  unfolding get_gnmi_client
  client_set c req = do
    connected ← get_gnmi_client c
    response ← λ w. deferred (L.close connected) (wrap_err from_grpc (L.set connected req w))
    pure (record c { client = connected }, response)

  -- `Get`, `Capabilities`, `Poll` and `Close` use the client that is there.
  unfoldable pub client_get : Client → Text → Go W Response
  client_get c req w = deferred (L.close c.client) (wrap_err from_grpc (L.get c.client req w))

  unfoldable pub client_capabilities : Client → Go W Response
  client_capabilities c = wrapped from_grpc (L.capabilities c.client)

  -- `Subscribe`
  abbrev pub client_subscribe : Client → Text → Go W (Unit {0})
  client_subscribe c query = pure tt

  abbrev pub client_poll : Client → Go W (Unit {0})
  client_poll c = L.poll c.client

  abbrev pub client_close : Client → Go W (Unit {0})
  client_close c = L.close c.client

  -- `Client`, the interface, as this client implements it; Set leaves another client behind
  pub record ClientInterface : Type 0 where
    pub capabilities : Go W Response
    pub get : Text → Go W Response
    pub set : SetRequest → Go W (Client × Response)
    pub subscribe : Text → Go W (Unit {0})
    pub poll : Go W (Unit {0})
    pub close : Go W (Unit {0})

  abbrev pub gnmi_client : Client → ClientInterface
  gnmi_client c = record {
    capabilities = client_capabilities c;
    get = client_get c;
    set = client_set c;
    subscribe = client_subscribe c;
    poll = client_poll c;
    close = client_close c;
  }

  -- Set of a secure client whose key pair cannot be read panics.
  pub client_set-no_key_pair :
      (c : Client) (req : SetRequest) (e : Error) (w : W)
      → c.secure ≡ true
      → key_pair ≡ err e
      → client_set c req w ≡ panic
  unfolding client_set
  client_set-no_key_pair c req e w s k = ground (arith, s, k)
