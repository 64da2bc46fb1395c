-- ===== src/Lib.antt =====
-- fabric-adapter: a gNMI target that turns the configuration of SDN fabrics into an ONOS network
-- configuration and into Stratum chassis configurations, and pushes both.
--
-- How the parts interact. A gNMI callback (`synchronizerWrapper`, `Synchronize`) queues a copy of the
-- configuration. A loop takes updates from the queue and runs `SynchronizeAndRetry`, which calls
-- `SynchronizeDevice` until nothing failed. That asks the topology for each fabric's controller, then
-- `SynchronizeFabricToOnos` builds the network configuration from switches and routes and posts it to
-- ONOS, unless the cache holds the same one, and `SynchronizeFabricToStratum` builds and pushes a
-- chassis configuration for each switch. Segment ids come from a counter and a map in Atomix.
--
-- Files and code:
--   Base                     what the files share: texts as lists of bytes, Go maps as association
--                            lists in their order of iteration, and `Go`, a call on a state that
--                            returns a value, returns an error or panics
--   World                    the state of a synchronization and, as the record `Services`, the code
--                            that the adapter calls: HTTP, gNMI, the topology, protobuf
--   Fabric                   pkg/synchronizer/typedef.go, the configuration of a fabric; Formed says
--                            which of its pointers are read without a test
--   Json                     `encoding/json`: documents, how structs, slices and maps become
--                            documents, and `json.MarshalIndent`; Read is a reader of JSON texts
--   Netcfg                   pkg/synchronizer/schema.go; Equal is `reflect.DeepEqual` on it, Encode
--                            its struct tags, and Decode reads them back
--   Chassis                  pkg/stratum_hal/common.pb.go, the messages and fields that are set
--   GnmiClient               pkg/synchronizer/gnmiclient.go, on libraries that are a parameter
--   Lookup                   pkg/synchronizer/lookup.go and validate.go
--   Util                     pkg/synchronizer/util.go
--   Net, Strconv, Sorting    `net.ParseIP`, `strconv.ParseUint`, `strconv.ParseBool`, `sort.Strings`
--   Switch                   `handleSwitchPort` and `handleSwitch` of
--                            pkg/synchronizer/synchronize-device.go
--   Stratum                  `handleStratumSwitchPort`, `handleStratumSwitch`, `useSecureTransport`
--   Onos                     `handleRoute`, `SynchronizeFabricToOnos`; OwnSids puts the SID store behind
--                            it
--   Device                   `SynchronizeFabricToStratum`, `SynchronizeDevice`; Pushed says what should
--                            be sent, Willing and Recovery what is assumed of the services
--   Cache                    pkg/synchronizer/cache.go
--   Pusher                   pkg/synchronizer/restpusher.go and gnmipusher.go; `PushError` of
--                            interface.go is a constructor of `Error`
--   Queue                    pkg/synchronizer/async.go; Interleaving lets any number of callers and
--                            the loop take their steps in any order, and Latest is what the queue
--                            promises to one caller
--   Synchronizer             pkg/synchronizer/synchronizer.go and delete.go, and
--                            `synchronizerWrapper` of cmd/fabric-adapter/fabric-adapter.go; Adapter
--                            puts the callbacks, the loop and `SynchronizeDevice` together, and
--                            Newest is about series of callbacks
--   Sid                      pkg/store/store.go, on an Atomix that is a parameter; Replicas has
--                            several callers at once
--   Command                  cmd/fabric-adapter/fabric-adapter.go, the flags and `main`
--   Version, Kpi             internal/pkg/version/version.go, pkg/synchronizer/kpi.go
--   Examples                 the theorems at concrete inputs
--
-- Correspondence. A function of the source is the definition with its name in snake case; a pointer
-- is an `Option`, and reading through a nil pointer is a panic. The mutable fields of the scope, the
-- global `nextIP`, the cache and the calls that have left the process are the record `World`. A write
-- that precedes an error stays. Log lines and durations are left out, but not the pointers that a log
-- line reads. Unsigned numbers of 16 and 32 bits wrap.
--
-- Bounds and fuel. The decimal digits of a number run on one more step than its value. The retries
-- run on a number of rounds, since the source's loop has no bound. The reader of JSON texts runs on a
-- bound on the depth of its calls, which the theorems take above the weight of the document. All
-- other loops are structural.
--
-- Not modelled: the text coding of the chassis configuration (a parameter), the generated code
-- of pkg/stratum_hal beyond the messages that the adapter fills, the gNMI client library and the
-- gNMI target (parameters), the values of the duration histogram, log lines, and `GetModels`, whose
-- result is a constant of the config-models package. A nil slice or map and an empty one are one
-- value, which `reflect.DeepEqual` tells apart; in what the adapter builds, the absence of entries is
-- always nil. The steps of many callers of `Get` do not include a replica that starts meanwhile,
-- whose `NewAtomixStore` reads the counter and sets it to 100 in two calls.
pub mod Base
pub mod Cache
pub mod Chassis
pub mod Command
pub mod Device
pub mod Examples
pub mod Fabric
pub mod GnmiClient
pub mod Json
pub mod Kpi
pub mod Lookup
pub mod Net
pub mod Netcfg
pub mod Onos
pub mod Pusher
pub mod Queue
pub mod Sid
pub mod Sorting
pub mod Stratum
pub mod Strconv
pub mod Switch
pub mod Synchronizer
pub mod Util
pub mod Version
pub mod World
