-- ===== src/Network/Interfaces.antt =====
-- `list_network_interfaces` and the small functions of droid_web_display/network_access.py.
use droid_web_display.Common.{
  ℕ, String, Bool, true, false, not, ◌&&◌, ◌||◌, Option, none, some, List, [], ◌∷◌, ◌++◌, str_eq,
  if◌then◌else◌, Dict, lookup, any,
}
use Prim.Native.String.{◌++◌ as ◌<>◌}
use droid_web_display.Common.Text.{chars, codes, lower, lower_code, contains, text_le, text_lt}
use droid_web_display.Common.Sort.{sort}
use droid_web_display.Transfers.Paths.{parts}
use droid_web_display.Network.Types.{Address, Subnet, Ipaddress}

pub record NetworkInterfaceInfo : Type 0 where
  pub name : String
  pub address : String
  pub prefix_length : ℕ
  pub network : String
  pub private : Bool
  pub loopback : Bool
  pub adapter_type : String

abbrev pub has_token : List ℕ → List String → Bool
has_token name tokens = any (λ token. contains (codes token) name) tokens

unfoldable pub adapter_type_of : String → String
unfolding lower_code contains
adapter_type_of name =
    let lowered = lower name in
    if has_token lowered ("wi-fi" ∷ "wifi" ∷ "wireless" ∷ "wlan" ∷ [])
    then "wifi"
    else if has_token lowered ("ethernet" ∷ "eth" ∷ [])
    then "ethernet"
    else if has_token lowered ("vpn" ∷ "tun" ∷ "tap" ∷ "wireguard" ∷ [])
    then "vpn"
    else if has_token lowered ("virtual" ∷ "vmware" ∷ "hyper-v" ∷ "vbox" ∷ "docker" ∷ "wsl" ∷ [])
    then "virtual"
    else "other"

-- An entry of `psutil.net_if_addrs`.
pub record Entry : Type 0 where
  pub is_inet : Bool
  pub address : String
  pub netmask : String

abbrev pub is_usable : Address → Bool
is_usable a = not (a.is_loopback || a.is_link_local || a.is_unspecified) && a.is_private

-- One turn of the inner loop.
abbrev pub info : String → Option Address → Option Subnet → List NetworkInterfaceInfo
info name none network = []
info name (some address) none = []
info name (some address) (some network) =
    if is_usable address
    then (record {
      name = name;
      address = address.shown;
      prefix_length = network.prefixlen;
      network = network.shown;
      private = true;
      loopback = false;
      adapter_type = adapter_type_of name;
    })
      ∷ []
    else []

unfoldable pub entries_of : Ipaddress → String → List Entry → List NetworkInterfaceInfo
entries_of ip name [] = []
entries_of ip name (e ∷ es) =
    let rest = entries_of ip name es in
    if e.is_inet
    then info name (ip.ip_address e.address) (ip.ip_network (e.address <> "/" <> e.netmask)) ++ rest
    else rest

-- `name in stats and not stats[name].isup`
abbrev pub is_down : Option Bool → Bool
is_down none = false
is_down (some up) = not up

unfoldable pub interfaces :
    Ipaddress → Dict Bool → List (String × List Entry) → List NetworkInterfaceInfo
unfolding entries_of
interfaces ip stats [] = []
interfaces ip stats ((name, entries) ∷ rest) =
    let others = interfaces ip stats rest in
    if is_down (lookup name stats) then others else entries_of ip name entries ++ others

abbrev pub is_wired : NetworkInterfaceInfo → Bool
is_wired i = str_eq i.adapter_type "ethernet" || str_eq i.adapter_type "wifi"

-- The tuples that the sort compares: cable and radio first, then by name, then by address.
unfoldable pub comes_before : NetworkInterfaceInfo → NetworkInterfaceInfo → Bool
unfolding text_le text_lt lower_code
comes_before i j =
    if is_wired i && not (is_wired j)
    then true
    else if is_wired j && not (is_wired i)
    then false
    else if text_lt (lower i.name) (lower j.name)
    then true
    else text_le (lower i.name) (lower j.name) && text_le (codes i.address) (codes j.address)

unfoldable pub list_network_interfaces :
    Ipaddress → Dict Bool → List (String × List Entry) → List NetworkInterfaceInfo
unfolding interfaces comes_before sort
list_network_interfaces ip stats addresses = sort comes_before (interfaces ip stats addresses)

abbrev pub is_start : List String → List String → Bool
is_start [] path = true
is_start (part ∷ repo) [] = false
is_start (part ∷ repo) (name ∷ path) = let rest = is_start repo path in str_eq part name && rest

-- `private_key_is_outside_release`, of the resolved paths.
unfoldable pub private_key_is_outside_release : String → String → Bool
unfolding parts
private_key_is_outside_release repo_root path =
    not (is_start (parts (chars repo_root)) (parts (chars path)))
