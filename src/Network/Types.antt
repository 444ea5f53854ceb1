-- ===== src/Network/Types.antt =====
-- The records of droid_web_display/network_access.py, and the answers of Python's `ipaddress`.
use droid_web_display.Common.{ℕ, String, Bool, false, Option, none, List, [], Result, ok, err}
use droid_web_display.Common.Integers.{ℤ, pos}
use droid_web_display.Common.Json.{Misfit}

pub record TlsSettings : Type 0 where
  pub enabled : Bool
  pub certificate_path : Option String
  pub private_key_path : Option String
  pub certificate_source : String

pub record FirewallSettings : Type 0 where
  pub manage_rule : Bool
  pub rule_name : String

-- The mode is the text that stands in the file, since `validate` is what looks at it.
pub record NetworkAccessConfig : Type 0 where
  pub schema_version : ℤ
  pub mode : String
  pub bind_address : String
  pub port : ℤ
  pub allowed_networks : List String
  pub hostname : Option String
  pub tls : TlsSettings
  pub firewall : FirewallSettings

abbrev pub default_tls : TlsSettings
default_tls = record {
  enabled = false;
  certificate_path = none;
  private_key_path = none;
  certificate_source = "generated";
}

abbrev pub default_firewall : FirewallSettings
default_firewall = record { manage_rule = false; rule_name = "DroidWebDisplay LAN Access" }

abbrev pub default_config : ℤ → NetworkAccessConfig
default_config port = record {
  schema_version = pos 1;
  mode = "local-only";
  bind_address = "127.0.0.1";
  port = port;
  allowed_networks = [];
  hostname = none;
  tls = default_tls;
  firewall = default_firewall;
}

-- `NetworkAccessError` with its code and message, and the exceptions that pass it by.
pub data Fault : Type 0 where
  network_error : String → String → Fault
  misfit : Misfit → Fault

-- An address object, with `str` of it.
pub record Address : Type 0 where
  pub shown : String
  pub version : ℕ
  pub is_loopback : Bool
  pub is_private : Bool
  pub is_link_local : Bool
  pub is_unspecified : Bool

pub record Subnet : Type 0 where
  pub shown : String
  pub version : ℕ
  pub is_private : Bool
  pub prefixlen : ℕ

-- `ip_address` and `ip_network(…, strict=False)`, none being their ValueError, and `in`.
pub record Ipaddress : Type 0 where
  pub ip_address : String → Option Address
  pub ip_network : String → Option Subnet
  pub holds : Subnet → Address → Bool

abbrev pub raised {ℓ} : {A : Type ℓ} → Result Misfit A → Result Fault A
raised (ok a) = ok a
raised (err m) = err (misfit m)
