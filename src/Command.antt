-- ===== src/Command.antt =====
-- cmd/fabric-adapter/fabric-adapter.go: the flags, the start of the process, and its end by a signal.
-- What `main` does to the outside is a list of events.
pub mod Startup
use fabric_adapter.Base.{
  ℕ, Bool, true, false, not, ◌||◌, Option, none, some, List, [], ◌∷◌, ◌++◌, Text, codes, ◌==◌,
  text_eq, if◌then◌else◌, Error, Result, ok, err, Outcome, Go, pure, lift, modify, ◌>>=◌, ◌>>◌, ret,
}
use fabric_adapter.Version.{Build, log_version}
use fabric_adapter.World.{Config}
use fabric_adapter.Synchronizer.{
  Synchronizer, SynchronizerOption, new_synchronizer, with_post_enable, with_partial_update_enable,
  with_post_timeout, with_cert_paths, with_topo_endpoint,
}

-- the flags; a duration is in seconds
pub record Flags : Type 0 where
  pub bind_addr : Text
  pub metric_addr : Text
  pub partial_update_disable : Bool
  pub post_disable : Bool
  pub post_timeout : ℕ
  pub aether_config_addr : Text
  pub aether_config_target : Text
  pub show_model_list : Bool
  pub diags_port : ℕ
  pub ca_path : Text
  pub key_path : Text
  pub cert_path : Text
  pub topo_endpoint : Text

abbrev pub default_flags : Flags
default_flags = record {
  bind_addr = codes ":10161";
  metric_addr = codes ":9851";
  partial_update_disable = false;
  post_disable = false;
  post_timeout = 10;
  aether_config_addr = [];
  aether_config_target = codes "connectivity-service-v4";
  show_model_list = false;
  diags_port = 8080;
  ca_path = [];
  key_path = [];
  cert_path = [];
  topo_endpoint = codes "onos-topo:5150";
}

-- the options that the flags give to `NewSynchronizer`
abbrev pub options : Flags → List SynchronizerOption
options f =
    with_post_enable (not f.post_disable)
    ∷ with_partial_update_enable (not f.partial_update_disable)
    ∷ with_post_timeout f.post_timeout
    ∷ with_cert_paths f.ca_path f.key_path f.cert_path
    ∷ with_topo_endpoint f.topo_endpoint
    ∷ []

unfoldable pub create : Flags → Config × Synchronizer
create f = new_synchronizer (options f)

pub data Event : Type 0 where
  log_lines print_lines : List Text → Event
  -- `NewTarget`, with `synchronizerWrapper` for its callback
  create_target : Event
  -- `Start` of the synchronizer, with what the options set
  start_synchronizer : Config → Event
  -- the goroutines, and the services on the target
  handle_signals register_gnmi register_reflection : Event
  serve_metrics : Text → Event
  start_diagnostics : Text → Text → ℕ → Event
  listen : Text → Event
  serve : Event

-- The libraries under `main`: the models of the configuration, the credentials of the server (an error
-- there ends the process), the gNMI target, the network.
pub record Outside : Type 0 where
  pub build : Build
  pub supported_models : List Text
  pub server_credentials : Result (Unit {0})
  pub new_target : Result (Unit {0})
  pub tcp_listen : Text → Result (Unit {0})
  pub grpc_serve : Result (Unit {0})

abbrev pub Main : Type 0
Main = Go (List Event) (Unit {0})

abbrev emit : Event → Main
emit e = modify (λ (es : List Event). es ++ e ∷ [])

-- a call that ends the process by `log.Fatalf` if it fails, and is an event if it does not
abbrev or_fatal : Event → Result (Unit {0}) → Main
or_fatal e r = lift r >> emit e

abbrev indented : List Text → List Text
indented [] = []
indented (m ∷ ms) = (codes "  " ++ (m ++ codes "\n")) ∷ indented ms

abbrev pub models_list : List Text → List Text
models_list models = codes "Supported models:\n" ∷ indented models

module _ (O : Outside) (f : Flags) where
  -- the rest of `main`, once the list of models was not asked for; a failure ends the process
  unfoldable pub run_server : Config → Main
  run_server config = do
    lift O.server_credentials
    or_fatal create_target O.new_target
    emit (start_synchronizer config)
    emit handle_signals
    emit register_gnmi
    emit register_reflection
    emit (serve_metrics f.metric_addr)
    emit (start_diagnostics f.aether_config_addr f.aether_config_target f.diags_port)
    or_fatal (listen f.bind_addr) (O.tcp_listen f.bind_addr)
    or_fatal serve O.grpc_serve

  -- `main`
  unfoldable pub main : Main
  unfolding run_server create
  main = do
    emit (log_lines (log_version (codes "  ") O.build))
    (if f.show_model_list
        then emit (print_lines (models_list O.supported_models))
        else run_server (create f).0)

-- `serveMetrics`, in a goroutine of its own: if the server ends with an error, so does the process
abbrev pub metrics_server : Result (Unit {0}) → Option Error
metrics_server (ok u) = none
metrics_server (err e) = some e

-- The goroutine that waits for signals, by their names: true if it closes the target and exits with 0,
-- false if it still waits.
unfoldable pub signal_loop : List Text → Bool
signal_loop [] = false
signal_loop (oscall ∷ later) =
    if oscall == codes "terminated" || oscall == codes "interrupt" then true else signal_loop later
