-- ===== src/Examples/Clients.antt =====
-- The gNMI client (pkg/synchronizer/gnmiclient.go), at a concrete input.
use fabric_adapter.Base.{◌≡◌, refl, true, codes, [], err, external, ret, panic}
use fabric_adapter.GnmiClient.{GnmiLibrary, Client, new_client, client_set, client_set-no_key_pair}

-- a library that accepts everything, without a key pair
abbrev keyless : GnmiLibrary
keyless = record {
  W = Unit {0};
  Conn = Unit {0};
  Connected = Unit {0};
  Response = Unit {0};
  key_pair = err (external (codes "tls"));
  dial = λ address tls w. ret tt w;
  new_from_conn = λ conn dest w. ret tt w;
  set = λ client req w. ret tt w;
  get = λ client req w. ret tt w;
  capabilities = λ client w. ret tt w;
  poll = λ client w. ret tt w;
  close = λ client w. ret tt w;
  from_grpc = λ e. e;
}

abbrev secure_client : Client keyless
secure_client = new_client keyless (codes "10.0.0.1:9559") [] true

client_set-no_key_pair_example :
    client_set keyless secure_client (record { elem = []; target = []; bytes_val = [] }) tt ≡ panic
client_set-no_key_pair_example =
    client_set-no_key_pair keyless secure_client (record { elem = []; target = []; bytes_val = [] })
      (external (codes "tls")) tt refl refl
