-- ===== src/Network/Policy.antt =====
-- `NetworkPolicy` of droid_web_display/network_access.py.
use Prim.Native.Char.{Char, code}
use droid_web_display.Common.{
  ℕ, String, Bool, true, false, not, ◌&&◌, ◌||◌, Option, none, some, List, [], ◌∷◌, ◌==◌, str_eq,
  if◌then◌else◌, Result, ok, err, map, any, count,
}
use droid_web_display.Common.Text.{chars, strip, lower, lower_code, codes, skip_last}
use droid_web_display.Common.Integers.{str_of}
use droid_web_display.Common.Json.{value_error}
use droid_web_display.Common.Raises.{◌>>=◌}
use droid_web_display.Network.Types.{NetworkAccessConfig, Fault, misfit, Address, Subnet, Ipaddress}
use droid_web_display.Network.Config.{is_local, is_lan, scheme, url, validate}

pub record NetworkPolicy : Type 0 where
  pub config : NetworkAccessConfig
  pub allowed_networks : List Subnet

abbrev pub network_or_error : Option Subnet → Result Fault Subnet
network_or_error none = err (misfit value_error)
network_or_error (some n) = ok n

unfoldable pub networks_of : Ipaddress → List String → Result Fault (List Subnet)
networks_of ip [] = ok []
networks_of ip (entry ∷ entries) = do
  n ← network_or_error (ip.ip_network entry)
  ns ← networks_of ip entries
  ok (n ∷ ns)

unfoldable pub policy_of : Ipaddress → NetworkAccessConfig → Result Fault NetworkPolicy
unfolding validate networks_of
policy_of ip c = do
  config ← validate ip none c
  networks ← networks_of ip c.allowed_networks
  ok (record { config = config; allowed_networks = networks })

-- `client_allowed`, from the address of the client
abbrev pub address_allowed : Ipaddress → NetworkPolicy → Option Address → Bool
address_allowed ip p none = false
address_allowed ip p (some address) =
    if address.is_loopback
    then true
    else if not (is_lan p.config)
    then false
    else any (λ n. ip.holds n address) p.allowed_networks

unfoldable pub client_allowed : Ipaddress → NetworkPolicy → Option String → Bool
client_allowed ip p none = is_local p.config
client_allowed ip p (some host) =
    if str_eq host "testclient"
    then true
    else if str_eq host "" || str_eq host "localhost"
    then is_local p.config
    else address_allowed ip p (ip.ip_address host)

-- `s in values`, of texts by their code points
unfoldable pub same_text : List ℕ → List ℕ → Bool
same_text [] [] = true
same_text [] (d ∷ t) = false
same_text (c ∷ s) [] = false
same_text (c ∷ s) (d ∷ t) = c == d && same_text s t

abbrev pub is_among : List ℕ → List (List ℕ) → Bool
is_among s values = any (same_text s) values

abbrev pub lowered : List Char → List ℕ
lowered = map (λ c. lower_code (code c))

abbrev pub hostname_item : Option String → List (List ℕ)
hostname_item none = []
hostname_item (some name) = if str_eq name "" then [] else lower name ∷ []

unfoldable pub allowed_hostnames : NetworkPolicy → List (List ℕ)
unfolding lower_code
allowed_hostnames p =
    codes "127.0.0.1"
    ∷ codes "localhost"
    ∷ codes "[::1]"
    ∷ lower p.config.bind_address
    ∷ hostname_item p.config.hostname

-- `host.split("]", 1)[0] + "]"`
unfoldable pub bracketed : List ℕ → List ℕ
bracketed [] = b']' ∷ []
bracketed (c ∷ s) = if c == b']' then b']' ∷ [] else c ∷ bracketed s

-- `host.rsplit(":", 1)[0]`, of a text with one colon
unfoldable pub before_colon : List ℕ → List ℕ
before_colon [] = []
before_colon (c ∷ s) = if c == b':' then [] else c ∷ before_colon s

unfoldable pub hostname_in : List ℕ → List ℕ
unfolding bracketed before_colon
hostname_in [] = []
hostname_in (c ∷ s) =
    if c == b'['
    then bracketed (c ∷ s)
    else if count (λ d. d == b':') (c ∷ s) == 1
    then before_colon (c ∷ s)
    else c ∷ s

unfoldable pub host_allowed : NetworkPolicy → Option String → Bool
unfolding allowed_hostnames strip lower_code same_text hostname_in
host_allowed p none = false
host_allowed p (some header) =
    if str_eq header ""
    then false
    else is_among (hostname_in (lower (strip header))) (allowed_hostnames p)

abbrev pub is_slash : Char → Bool
is_slash c = code c == b'/'

-- `item.rstrip("/").lower()`
abbrev pub normal_origin : List Char → List ℕ
normal_origin s = lowered (skip_last is_slash s)

abbrev pub lan_origins : NetworkAccessConfig → List (List Char)
lan_origins c = url "https" c.bind_address c.port ∷ elim c.hostname [
  | none ↦ []
  | some name ↦ if str_eq name "" then [] else url "https" name c.port ∷ []
]

unfoldable pub allowed_origins : NetworkPolicy → List (List ℕ)
unfolding skip_last lower_code chars str_of
allowed_origins p =
    let own = scheme p.config in
    map normal_origin (
      url own "127.0.0.1" p.config.port
      ∷ url own "localhost" p.config.port
      ∷ (if is_lan p.config then lan_origins p.config else []))

unfoldable pub origin_allowed : NetworkPolicy → Option (List Char) → Bool
unfolding allowed_origins skip_last lower_code same_text
origin_allowed p none = true
origin_allowed p (some []) = true
origin_allowed p (some (c ∷ s)) = is_among (normal_origin (c ∷ s)) (allowed_origins p)
