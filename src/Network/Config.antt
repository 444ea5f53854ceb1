-- ===== src/Network/Config.antt =====
-- `NetworkAccessConfig` of droid_web_display/network_access.py.
use droid_web_display.Common.{
  String, Bool, true, false, not, ◌&&◌, ◌||◌, Option, none, some, List, [], ◌∷◌, ◌++◌, ◌==◌, leb,
  str_eq, if◌then◌else◌, Result, ok, err, map,
}
use Prim.Native.Char.{Char}
use Prim.Native.String.{◌++◌ as ◌<>◌}
use droid_web_display.Common.Text.{chars, strip}
use droid_web_display.Common.Integers.{ℤ, pos, negsuc, str_of}
use droid_web_display.Common.Json.{
  Json, null, boolean, integer, text, array, nothing, object, Fields, end, field, Conversions,
  get_or, truth, int, str, iterate, fields_or_empty, texts, text_or_null,
}
use droid_web_display.Common.Raises.{◌>>=◌, ◌>>◌, assert}
use droid_web_display.Network.Types.{
  TlsSettings, FirewallSettings, NetworkAccessConfig, Fault, network_error, Address, Subnet,
  Ipaddress, raised,
}

abbrev pub is_version : ℤ → Bool
is_version (pos n) = n == 1
is_version (negsuc n) = false

abbrev pub is_port : ℤ → Bool
is_port (pos n) = leb 1 n && leb n 65535
is_port (negsuc n) = false

abbrev pub is_local : NetworkAccessConfig → Bool
is_local c = str_eq c.mode "local-only"

abbrev pub is_lan : NetworkAccessConfig → Bool
is_lan c = str_eq c.mode "lan-https"

abbrev pub parsed : Ipaddress → String → Result Fault Address
parsed ip s = elim (ip.ip_address s) [
  | none ↦ err (network_error "network_address" "Bind address must be a valid IP address")
  | some address ↦ ok address
]

abbrev pub is_lan_address : Address → Bool
is_lan_address a = a.version == 4 && not a.is_loopback && a.is_private && not a.is_link_local

abbrev pub is_lan_network : Subnet → Bool
is_lan_network n = n.version == 4 && n.is_private && leb 16 n.prefixlen

abbrev pub check_network : String → Option Subnet → Result Fault (Unit {0})
check_network entry none =
    err (network_error "network_allowlist" ("Invalid allowed network: " <> entry))
check_network entry (some n) = assert (is_lan_network n) (
    network_error "network_allowlist"
      ("Allowed network must be private IPv4 and /16 or narrower: " <> entry))

unfoldable pub check_networks : Ipaddress → List String → Result Fault (Unit {0})
check_networks ip [] = ok tt
check_networks ip (entry ∷ entries) =
    check_network entry (ip.ip_network entry) >> check_networks ip entries

-- `path and Path(path).is_file()`
abbrev pub has_file : (String → Bool) → Option String → Bool
has_file is_file none = false
has_file is_file (some path) = not (str_eq path "") && is_file path

abbrev pub check_files : (String → Bool) → TlsSettings → Result Fault (Unit {0})
check_files is_file tls = do
  assert (has_file is_file tls.certificate_path)
      (network_error "network_tls" "TLS certificate file is missing")
  assert (has_file is_file tls.private_key_path)
      (network_error "network_tls" "TLS private-key file is missing")

abbrev pub is_empty : List String → Bool
is_empty [] = true
is_empty (s ∷ ss) = false

abbrev pub validate_local : NetworkAccessConfig → Address → Result Fault NetworkAccessConfig
validate_local c address = do
  assert address.is_loopback
      (network_error "network_address" "Local-only mode must use a loopback address")
  assert (not c.tls.enabled) (network_error "network_tls" "Local-only mode does not use TLS")
  ok c

-- The files are looked at where a test of them is given.
abbrev pub validate_lan :
    Ipaddress
    → Option (String → Bool)
    → NetworkAccessConfig
    → Address
    → Result Fault NetworkAccessConfig
validate_lan ip files c address = do
  assert (is_lan_address address)
      (network_error "network_address" "LAN mode requires a specific private IPv4 address")
  assert (not (str_eq c.bind_address "0.0.0.0"))
      (network_error "network_address" "Binding to every interface is not allowed")
  assert c.tls.enabled (network_error "network_tls" "LAN mode requires HTTPS")
  assert (not (is_empty c.allowed_networks))
      (network_error "network_allowlist" "LAN mode requires at least one allowed network")
  check_networks ip c.allowed_networks
  elim files [ none ↦ ok tt | some is_file ↦ check_files is_file c.tls ]
  assert (not (str_eq (strip c.firewall.rule_name) ""))
      (network_error "network_firewall" "Firewall rule name cannot be empty")
  ok c

unfoldable pub validate :
    Ipaddress → Option (String → Bool) → NetworkAccessConfig → Result Fault NetworkAccessConfig
unfolding check_networks strip
validate ip files c = do
  assert (is_version c.schema_version)
      (network_error "network_schema" "Unsupported network configuration schema")
  assert (is_local c || is_lan c) (network_error "network_mode" "Unsupported network access mode")
  assert (is_port c.port) (network_error "network_port" "Port must be between 1 and 65535")
  address ← parsed ip c.bind_address
  if is_local c then validate_local c address else validate_lan ip files c address

-- `str(value) if value else None`
abbrev pub text_if : Conversions → Json → Option String
text_if k v = if truth k v then some (str k v) else none

abbrev pub strip_some : Option String → Option String
strip_some none = none
strip_some (some s) = some (strip s)

abbrev pub tls_of : Conversions → Fields → TlsSettings
tls_of k tls = record {
  enabled = truth k (get_or "enabled" (boolean false) tls);
  certificate_path = text_if k (get_or "certificatePath" null tls);
  private_key_path = text_if k (get_or "privateKeyPath" null tls);
  certificate_source = str k (get_or "certificateSource" (text "generated") tls);
}

abbrev pub firewall_of : Conversions → Fields → FirewallSettings
firewall_of k firewall = record {
  manage_rule = truth k (get_or "manageRule" (boolean false) firewall);
  rule_name = str k (get_or "ruleName" (text "DroidWebDisplay LAN Access") firewall);
}

unfoldable pub from_dict : Ipaddress → Conversions → Fields → Result Fault NetworkAccessConfig
unfolding validate truth int str iterate fields_or_empty strip
from_dict ip k value = do
  version ← raised (int k (get_or "schemaVersion" (integer (pos 1)) value))
  port ← raised (int k (get_or "port" (integer (pos 8765)) value))
  networks ← raised (iterate (get_or "allowedNetworks" (array nothing) value))
  tls ← raised (fields_or_empty k (get_or "tls" null value))
  firewall ← raised (fields_or_empty k (get_or "firewall" null value))
  validate ip none (record {
    schema_version = version;
    mode = str k (get_or "mode" (text "local-only") value);
    bind_address = str k (get_or "bindAddress" (text "127.0.0.1") value);
    port = port;
    allowed_networks = map (str k) networks;
    hostname = strip_some (text_if k (get_or "hostname" null value));
    tls = tls_of k tls;
    firewall = firewall_of k firewall;
  })

abbrev pub tls_dict : TlsSettings → Fields
tls_dict t = field "enabled" (boolean t.enabled) (
    field "certificatePath" (text_or_null t.certificate_path) (
      field "privateKeyPath" (text_or_null t.private_key_path)
        (field "certificateSource" (text t.certificate_source) end)))

abbrev pub firewall_dict : FirewallSettings → Fields
firewall_dict f =
    field "manageRule" (boolean f.manage_rule) (field "ruleName" (text f.rule_name) end)

-- `"configured"` in place of a private key's path that is not empty
abbrev pub redacted : Bool → TlsSettings → TlsSettings
redacted false t = t
redacted true t = record t {
  private_key_path = elim t.private_key_path [
    | none ↦ none
    | some path ↦ if str_eq path "" then some path else some "configured"
  ];
}

unfoldable pub to_dict : Bool → NetworkAccessConfig → Fields
unfolding texts
to_dict redact c = field "schemaVersion" (integer c.schema_version) (
    field "mode" (text c.mode) (
      field "bindAddress" (text c.bind_address) (
        field "port" (integer c.port) (
          field "allowedNetworks" (array (texts c.allowed_networks)) (
            field "hostname" (text_or_null c.hostname) (
              field "tls" (object (tls_dict (redacted redact c.tls)))
                (field "firewall" (object (firewall_dict c.firewall)) end)))))))

abbrev pub scheme : NetworkAccessConfig → String
scheme c = if is_lan c then "https" else "http"

-- `hostname or bind_address`
abbrev pub public_host : NetworkAccessConfig → String
public_host c = elim c.hostname [
  | none ↦ c.bind_address
  | some name ↦ if str_eq name "" then c.bind_address else name
]

-- `f"{scheme}://{host}:{port}"`
abbrev pub url : String → String → ℤ → List Char
url s host port = chars s ++ (":" ∷ "/" ∷ "/" ∷ []) ++ chars host ++ (":" ∷ str_of port)

unfoldable pub primary_url : NetworkAccessConfig → List Char
unfolding chars str_of
primary_url c = url (scheme c) (public_host c) c.port
