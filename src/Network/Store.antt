-- ===== src/Network/Store.antt =====
-- `NetworkConfigStore` of droid_web_display/network_access.py, over the content of its one file.
use droid_web_display.Common.{
  String, Bool, false, Option, none, some, if◌then◌else◌, Result, ok, err, Method, lift, require,
  writes, ◌>>◌, return,
}
use droid_web_display.Common.Integers.{ℤ, pos}
use droid_web_display.Common.Json.{Json, object, Conversions}
use droid_web_display.Network.Types.{
  NetworkAccessConfig, default_config, Fault, network_error, Ipaddress,
}
use droid_web_display.Network.Config.{is_lan, validate, from_dict, to_dict}

-- What the file holds where there is one: a JSON text, or what cannot be read as one.
pub data Content : Type 0 where
  unreadable : Content
  readable : Json → Content

-- The configuration of a decoded file.
abbrev pub of_json : Ipaddress → Conversions → Json → Result Fault NetworkAccessConfig
of_json ip k (object fields) = from_dict ip k fields
of_json ip k v = err (network_error "network_store" "Network configuration must be a JSON object")

unfoldable pub load : Ipaddress → Conversions → Option Content → Result Fault NetworkAccessConfig
unfolding from_dict
load ip k none = ok (default_config (pos 8765))
load ip k (some unreadable) =
    err (network_error "network_store" "Network configuration is unreadable")
load ip k (some (readable v)) = of_json ip k v

-- `is_file` answers for the certificate's files, `writable` for the store's.
unfoldable pub save :
    Ipaddress
    → (String → Bool)
    → Bool
    → NetworkAccessConfig
    → Method Fault (Option Content) (Unit {0})
unfolding validate to_dict
save ip is_file writable c = do
  lift (validate ip (if is_lan c then some is_file else none) c)
  require writable (network_error "OSError" "the file cannot be written")
  writes (λ old. some (readable (object (to_dict false c))))

unfoldable pub reset_local_only :
    Ipaddress → (String → Bool) → Bool → ℤ → Method Fault (Option Content) NetworkAccessConfig
unfolding save
reset_local_only ip is_file writable port = do
  save ip is_file writable (default_config port)
  return (default_config port)
