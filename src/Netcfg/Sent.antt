-- ===== src/Netcfg/Sent.antt =====
-- The texts that ONOS is sent for network configurations (pkg/synchronizer/schema.go), as a reader of
-- JSON finds them.
use fabric_adapter.Base.{ℕ, ◌<◌, ◌≡◌, ◌↔◌, refl, ap, true, Text, none, some, [], ◌∷◌, Option, ok}
use fabric_adapter.Json.{Json}
use fabric_adapter.Json.Print.{print}
use fabric_adapter.Json.Read.{read_value}
use fabric_adapter.Json.Read.Values.{weight, has_ascii}
use fabric_adapter.Json.Read.RoundTrip.{read_value-print, print-injective}
use fabric_adapter.Netcfg.{OnosNetConfig}
use fabric_adapter.Netcfg.Decode.Configs.{net_config_from, net_config_back}
use fabric_adapter.Netcfg.Encode.{net_config_json, marshal_indent}
use fabric_adapter.Netcfg.Reflexive.{IsNetConfig}
use fabric_adapter.Netcfg.Equal.{deep_equal}
use fabric_adapter.Netcfg.Documents.{deep_equal_iff}

-- the strings and keys of a configuration are ASCII
abbrev pub IsAscii : OnosNetConfig → Type 0
IsAscii c = has_ascii (net_config_json c) ≡ true

-- A text as a network configuration, by a reader of JSON that goes to a depth of `f` calls.
abbrev decoded : Option (Json × Text) → Option OnosNetConfig
decoded none = none
decoded (some (v, [])) = some (net_config_from v)
decoded (some (v, c ∷ rest)) = none

unfoldable pub unmarshal : ℕ → Text → Option OnosNetConfig
unfolding read_value net_config_from
unmarshal f s = decoded (read_value f s)

-- The text that a network configuration is encoded as, if its maps have each key once and its
-- strings are ASCII, is decoded to a configuration that reflect.DeepEqual finds equal to it, by a
-- JSON reader that may go deep enough and takes each field by its tag.
pub unmarshal-marshal_indent :
    (c : OnosNetConfig) (f : ℕ)
    → weight (net_config_json c) < f
    → IsAscii c
    → IsNetConfig c
    → (s : Text) × (d : OnosNetConfig) × (marshal_indent c ≡ ok s)
      × (unmarshal f s ≡ some d)
      × (deep_equal c d ≡ true)
unfolding marshal_indent unmarshal
unmarshal-marshal_indent c f h ascii m = (
  print 0 (net_config_json c),
  net_config_from (net_config_json c),
  refl,
  ap decoded (read_value-print (net_config_json c) f h ascii),
  net_config_back c m,
)

-- Two network configurations in ASCII whose maps have each key once are equal to reflect.DeepEqual
-- exactly when they are encoded as one text.
pub deep_equal-marshal_indent_iff :
    (c d : OnosNetConfig)
    → IsNetConfig c
    → IsNetConfig d
    → IsAscii c
    → IsAscii d
    → (deep_equal c d ≡ true) ↔ (marshal_indent c ≡ marshal_indent d)
unfolding marshal_indent
deep_equal-marshal_indent_iff c d mc md ac ad =
    let iff = deep_equal_iff c d mc md in
    (
      λ h. ap (λ (v : Json). ok (print 0 v)) (iff.0 h),
      λ e. iff.1 (print-injective (net_config_json c) (net_config_json d) ac ad (cc (e))),
    )
