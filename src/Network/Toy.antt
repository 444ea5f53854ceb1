-- ===== src/Network/Toy.antt =====
-- Small stand-ins for the libraries below droid_web_display/network_access.py, and a configuration.
use Prim.Native.Char.{code}
use droid_web_display.Common.Text.{chars}
use droid_web_display.Common.{
  any, not, leb, length, true, false, refl, none, some, [], ◌∷◌, str_eq, if◌then◌else◌, err,
}
use droid_web_display.Common.Integers.{pos}
use droid_web_display.Common.Json.{Conversions, value_error}
use droid_web_display.Network.Types.{
  NetworkAccessConfig, default_config, Address, Subnet, Ipaddress,
}
use droid_web_display.Network.Policy.{NetworkPolicy}
use droid_web_display.Network.Admission.{HasNames}
use droid_web_display.Network.Certificates.{Certificate, X509, Machine}

abbrev pub lan_address : Address
lan_address = record {
  shown = "192.168.1.5";
  version = 4;
  is_loopback = false;
  is_private = true;
  is_link_local = false;
  is_unspecified = false;
}

abbrev pub own_address : Address
own_address = record lan_address { shown = "127.0.0.1"; is_loopback = true }

abbrev pub lan : Subnet
lan = record { shown = "192.168.1.0/24"; version = 4; is_private = true; prefixlen = 24 }

-- An `ipaddress` that knows two addresses and one network, which holds the first.
abbrev pub toy : Ipaddress
toy = record {
  ip_address = λ s.
      if str_eq s "192.168.1.5"
      then some lan_address
      else if str_eq s "127.0.0.1"
      then some own_address
      else none;
  ip_network = λ s. if str_eq s "192.168.1.0/24" then some lan else none;
  holds = λ n a. str_eq a.shown "192.168.1.5";
}

abbrev pub toy_names : HasNames toy
toy_names = record { empty = refl; testclient = refl; localhost = refl }

abbrev pub lan_config : NetworkAccessConfig
lan_config = record (default_config (pos 8765)) {
  mode = "lan-https";
  bind_address = "192.168.1.5";
  allowed_networks = "192.168.1.0/24" ∷ [];
  hostname = some "Desk";
  tls = record {
    enabled = true;
    certificate_path = some "/c.pem";
    private_key_path = some "/k.pem";
    certificate_source = "generated";
  };
}

abbrev pub lan_policy : NetworkPolicy
lan_policy = record { config = lan_config; allowed_networks = lan ∷ [] }

-- `int` of a text and `str` of anything else are left out of this one.
abbrev pub toy_conversions : Conversions
toy_conversions = record {
  int_of_text = λ s. err value_error;
  int_of_real = λ s. err value_error;
  text_of = λ v. "";
  real_truth = λ s. true;
}

-- Files that hold the names of what they encode.
abbrev pub toy_certificate : Certificate
toy_certificate = record {
  public_key = "public";
  common_name = "Desk";
  not_before = 99700;
  not_after = 31636000;
  san = some (record {
    ip_values = "192.168.1.5" ∷ "127.0.0.1" ∷ [];
    dns_values = "localhost" ∷ "Desk" ∷ "desk.lan" ∷ [];
  });
}

-- It keeps one certificate and one key.
abbrev pub toy_x509 : X509
toy_x509 = record {
  public_of = λ key. "public";
  certificate_bytes = λ c. "certificate";
  load_certificate = λ s. if str_eq s "certificate" then some toy_certificate else none;
  key_bytes = λ key. "key";
  load_key = λ s. if str_eq s "key" then some "secret" else none;
  dns_name = λ s. not (any (λ c. leb 128 (code c)) (chars s));
  name_attribute = λ s. leb (length (chars s)) 64;
  sha256 = λ c. "digest";
}

abbrev pub desk : Machine
desk = record {
  generated_key = "secret";
  now = 100000;
  hostname = "desk.lan";
  writable = λ path. true;
}
