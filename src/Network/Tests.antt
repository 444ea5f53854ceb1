-- ===== src/Network/Tests.antt =====
-- droid_web_display/network_access.py on concrete configurations.
use Prim.Native.Char.{Char}
use droid_web_display.Common.{
  ◌≤◌, drop, String, true, false, ◌≡◌, ◌≢◌, refl, ◌↔◌, none, some, List, [], ◌∷◌, str_eq, eq_iff,
  ok, err, arith, ◌++◌, any,
}
use droid_web_display.Common.Text.{
  chars, of_chars, lower_code, skip, skip_last, is_space, strip, decimal,
}
use droid_web_display.Common.Integers.{pos, str_of}
use droid_web_display.Common.Json.{value_error}
use droid_web_display.Network.Types.{
  NetworkAccessConfig, default_config, default_firewall, misfit, Subnet,
}
use droid_web_display.Network.Config.{validate, check_networks, primary_url}
use droid_web_display.Network.Policy.{
  lowered, NetworkPolicy, policy_of, networks_of, client_allowed, host_allowed, allowed_hostnames,
  allowed_origins, origin_allowed, same_text, hostname_in, before_colon,
}
use droid_web_display.Network.Accepted.{IsAccepted, validate-IsAccepted}
use droid_web_display.Network.Admission.{
  IsAdmitted, client_allowed-IsAdmitted, client_allowed-private,
}
use droid_web_display.Network.Firewall.{
  escaped, head_text, remove_text, create_text, port_text, remotes, create_command,
}
use droid_web_display.Network.Quoting.{is_typographic, read_literal, create_command-read_literal}
use droid_web_display.Network.Origins.{web_origin, origin_allowed-web_origin, origin_allowed-http}
use droid_web_display.Network.Store.{load, save}
use droid_web_display.Network.Restored.{IsNormal, load-save}
use droid_web_display.Network.Certificates.{
  all_dns, host_names, generate_certificate, validate_certificate_pair,
}
use droid_web_display.Network.Issued.{
  IsLawful, IsIssuable, issued, issued_report, validate_certificate_pair-generate_certificate,
}
use droid_web_display.Network.Toy.{
  lan_address, toy, toy_names, lan_config, lan_policy, toy_conversions, toy_x509, desk,
}

lan_made : policy_of toy lan_config ≡ ok lan_policy
unfolding policy_of validate networks_of check_networks strip skip skip_last is_space chars of_chars
lan_made = refl

lan_valid : validate toy none lan_config ≡ ok lan_config
unfolding validate check_networks strip skip skip_last is_space chars of_chars
lan_valid = refl

-- The port is cut off, and capital letters do not count.
host_read : host_allowed lan_policy (some "DESK:8765") ≡ true
unfolding host_allowed allowed_hostnames strip skip skip_last is_space lower_code same_text
    hostname_in before_colon chars of_chars
host_read = refl

other_host : host_allowed lan_policy (some "evil.example:8765") ≡ false
unfolding host_allowed allowed_hostnames strip skip skip_last is_space lower_code same_text
    hostname_in before_colon chars of_chars
other_host = refl

-- A server for the machine itself that was given a name serves a page whose origin it refuses.
named : NetworkPolicy
named = record {
  config = record (default_config (pos 8765)) { hostname = some "desk.test" };
  allowed_networks = [];
}

named_refused : origin_allowed named (some (primary_url named.config)) ≡ false
unfolding named origin_allowed allowed_origins primary_url skip_last lower_code same_text chars
    str_of decimal
named_refused = refl

-- A policy for the machine itself fails on an allowed network that `validate` does not look at.
broken : NetworkAccessConfig
broken = record (default_config (pos 8765)) { allowed_networks = "home" ∷ [] }

broken_valid : validate toy none broken ≡ ok broken
unfolding broken validate
broken_valid = refl

broken_policy : policy_of toy broken ≡ err (misfit value_error)
unfolding broken policy_of validate networks_of
broken_policy = refl

validate-IsAccepted_example :
    (validate toy none lan_config ≡ ok lan_config) ↔ IsAccepted toy lan_config
validate-IsAccepted_example = validate-IsAccepted toy lan_config

client_allowed-IsAdmitted_example :
    (client_allowed toy lan_policy (some "192.168.1.5") ≡ true)
    ↔ IsAdmitted toy lan_config lan_address
client_allowed-IsAdmitted_example =
    client_allowed-IsAdmitted toy lan_config lan_policy "192.168.1.5" lan_address toy_names lan_made
      refl

lan_client : client_allowed toy lan_policy (some "192.168.1.5") ≡ true
unfolding client_allowed
lan_client = refl

client_allowed-private_example :
    (true ≡ true)
    × ((n : Subnet) × (n.version ≡ 4)
        × (n.is_private ≡ true)
        × (16 ≤ n.prefixlen)
        × (toy.holds n lan_address ≡ true))
client_allowed-private_example =
    client_allowed-private toy lan_config lan_policy "192.168.1.5" lan_address toy_names lan_made
      refl refl lan_client

-- As a browser sends it, in lower case.
desk_origin : lowered (chars "https://desk:8765") ≡ lowered (web_origin "Desk" (pos 8765))
unfolding chars lower_code str_of decimal
desk_origin = refl

another_port : pos 8765 ≢ pos 443
another_port h = absurd (ground (arith, h))

origin_allowed-web_origin_example :
    origin_allowed lan_policy (some (chars "https://desk:8765")) ≡ true
origin_allowed-web_origin_example =
    origin_allowed-web_origin lan_policy refl (chars "https://desk:8765") desk_origin another_port

-- On the default port a browser leaves the port out, and its origin is refused.
default_port : NetworkPolicy
default_port = record lan_policy { config = record lan_config { port = pos 443 } }

default_port_refused : origin_allowed default_port (some (web_origin "desk" (pos 443))) ≡ false
unfolding default_port origin_allowed allowed_origins skip_last lower_code same_text chars str_of
    decimal
default_port_refused = refl

origin_allowed-http_example :
    origin_allowed lan_policy (some (chars "http://" ++ chars "desk:8765")) ≡ false
origin_allowed-http_example = origin_allowed-http lan_policy refl (chars "desk:8765")

-- A name that tries to end its quotes.
abbrev quoted : NetworkAccessConfig
quoted = record lan_config { firewall = record default_firewall { rule_name = "x'; calc; '" } }

plain_name : any is_typographic (chars "x'; calc; '") ≡ false
unfolding chars
plain_name = refl

-- A quote of another shape ends the literal.
smuggled :
    read_literal false (escaped (chars "x’; calc") ++ "'" ∷ []) ≡ (chars "x", chars "; calc'")
unfolding read_literal escaped chars
smuggled = refl

create_command-read_literal_example :
    (old new : List Char) × (create_command quoted ≡ head_text ++ old)
    × (read_literal false old ≡ (chars "x'; calc; '", drop 1 remove_text ++ (create_text ++ new)))
    × (read_literal false new ≡ (chars "x'; calc; '", drop 1 port_text ++ remotes quoted))
create_command-read_literal_example = create_command-read_literal quoted plain_name

desk_stripped : some (strip "Desk") ≡ some "Desk"
unfolding strip skip skip_last is_space chars of_chars
desk_stripped = refl

apart_if : (s t : String) → str_eq s t ≡ false → s ≢ t
apart_if s t e h = ground (arith, e, h, eq_iff s t)

abbrev lan_normal : IsNormal lan_config
lan_normal = record {
  hostname = apart_if "Desk" "" refl;
  stripped = desk_stripped;
  certificate_path = apart_if "/c.pem" "" refl;
  private_key_path = apart_if "/k.pem" "" refl;
}

lan_saved : (save toy (λ s. true) true lan_config none).0 ≡ ok tt
unfolding save validate check_networks strip skip skip_last is_space chars of_chars
lan_saved = refl

load-save_example :
    load toy toy_conversions (save toy (λ s. true) true lan_config none).1 ≡ ok lan_config
load-save_example =
    load-save toy toy_conversions (λ s. true) true lan_config none lan_normal lan_saved

abbrev toy_lawful : IsLawful toy_x509 (issued toy_x509 desk lan_address (some "Desk") 365) "secret"
toy_lawful = record { certificate = refl; key = refl }

desk_names : all_dns toy_x509 (host_names desk "Desk") ≡ true
unfolding chars
desk_names = refl

desk_common_name : toy_x509.name_attribute "Desk" ≡ true
unfolding chars
desk_common_name = refl

abbrev toy_issuable :
    IsIssuable toy_x509 desk "/c.pem" "/k.pem" "192.168.1.5" (some "Desk") 365 lan_address
toy_issuable = record {
  lower_bound = omega arith;
  upper_bound = omega arith;
  shown = refl;
  version = refl;
  is_private = refl;
  is_remote = refl;
  names = desk_names;
  common_name = desk_common_name;
  certificate_writable = refl;
  key_writable = refl;
  apart = apart_if "/c.pem" "/k.pem" refl;
}

validate_certificate_pair-generate_certificate_example :
    ((generate_certificate toy toy_x509 desk 100001 "/c.pem" "/k.pem" "192.168.1.5"
        (some "Desk")
        365
        []).0
      ≡ ok (issued_report toy_x509 desk lan_address (some "Desk") 365))
    × ((validate_certificate_pair toy_x509 31635999 "/c.pem" "/k.pem" "192.168.1.5"
          (some "Desk")
          (generate_certificate toy toy_x509 desk 100001 "/c.pem" "/k.pem" "192.168.1.5"
            (some "Desk")
            365
            []).1).0
        ≡ ok (issued_report toy_x509 desk lan_address (some "Desk") 365))
validate_certificate_pair-generate_certificate_example =
    validate_certificate_pair-generate_certificate toy_x509 desk "/c.pem" "/k.pem" "192.168.1.5"
      (some "Desk") 365 lan_address toy_lawful toy_issuable toy 100001 31635999 [] refl
      (omega arith) (omega arith)
