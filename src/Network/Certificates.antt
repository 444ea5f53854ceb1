-- ===== src/Network/Certificates.antt =====
-- The certificates of droid_web_display/network_access.py.
use droid_web_display.Common.{
  ℕ, ◌+◌, ◌*◌, ◌-◌, String, Bool, true, not, ◌&&◌, Option, none, some, List, [], ◌∷◌, ◌==◌, leb,
  ltb, ◌||◌, str_eq, if◌then◌else◌, map, any, Dict, insert, lookup, Result, ok, err, Method, return,
  lift, require, writes, ◌>>=◌, ◌>>◌,
}
use droid_web_display.Common.Text.{codes, lower, lower_code, text_le}
use droid_web_display.Common.Sort.{sort}
use droid_web_display.Common.Json.{value_error}
use droid_web_display.Network.Types.{Fault, network_error, misfit, Address, Ipaddress}
use droid_web_display.Network.Policy.{is_among, same_text}

-- Alternative names: addresses by their text, and host names.
pub record AltNames : Type 0 where
  pub ip_values : List String
  pub dns_values : List String

-- Times are seconds.
pub record Certificate : Type 0 where
  pub public_key : String
  pub common_name : String
  pub not_before : ℕ
  pub not_after : ℕ
  pub san : Option AltNames

-- `cryptography`, with files as texts.
pub record X509 : Type 0 where
  pub public_of : String → String
  pub certificate_bytes : Certificate → String
  pub load_certificate : String → Option Certificate
  pub key_bytes : String → String
  pub load_key : String → Option String
  pub dns_name : String → Bool
  -- whether `NameAttribute` takes the text as a common name, of which it asks 1 to 64 bytes
  pub name_attribute : String → Bool
  pub sha256 : Certificate → String

-- The private key that is generated, the clock, the name of the host, and the files that can be
-- written.
pub record Machine : Type 0 where
  pub generated_key : String
  pub now : ℕ
  pub hostname : String
  pub writable : String → Bool

pub record Report : Type 0 where
  pub subject : String
  pub not_before : ℕ
  pub not_after : ℕ
  pub ip_addresses : List (List ℕ)
  pub dns_names : List (List ℕ)
  pub sha256 : String

abbrev pub failure : String → Fault
failure message = network_error "network_certificate" message

abbrev pub Disk : Type 0
Disk = Dict String

abbrev pub Act : Type 0 → Type 0
Act A = Method Fault Disk A

abbrev pub given {ℓ} : {A : Type ℓ} → Fault → Option A → Result Fault A
given f none = err f
given f (some a) = ok a

-- `_write_private` and `write_bytes`
abbrev pub write_file : Machine → String → String → Act (Unit {0})
write_file m path content = do
  require (m.writable path) (network_error "OSError" path)
  writes (insert path content)

abbrev pub has_name : List String → String → Bool
has_name names name = any (str_eq name) names

-- `hostname and hostname.lower() not in dns_values`, negated
abbrev pub names_host : Option String → List String → Bool
names_host none dns = true
names_host (some name) dns = str_eq name "" || is_among (lower name) (map lower dns)

abbrev pub unique : List (List ℕ) → List (List ℕ)
unique [] = []
unique (s ∷ ss) = let rest = unique ss in if is_among s rest then rest else s ∷ rest

-- `sorted({...})`
abbrev pub sorted_set : List (List ℕ) → List (List ℕ)
sorted_set names = sort text_le (unique names)

abbrev pub report : X509 → Certificate → AltNames → Report
report x c names = record {
  subject = c.common_name;
  not_before = c.not_before;
  not_after = c.not_after;
  ip_addresses = sorted_set (map codes names.ip_values);
  dns_names = sorted_set (map lower names.dns_values);
  sha256 = x.sha256 c;
}

abbrev pub unparsed : Fault
unparsed = failure "Certificate or private key cannot be parsed"

abbrev pub read_file : String → Disk → Result Fault String
read_file path disk = given unparsed (lookup path disk)

-- What follows once both files are parsed.
abbrev pub validate_pair : X509 → ℕ → String → Option String → Certificate → String → Act Report
validate_pair x now bind_address hostname c key = do
  require (str_eq c.public_key (x.public_of key)) (failure "Private key does not match certificate")
  require (ltb now c.not_after) (failure "Certificate has expired")
  names ← lift (given (failure "Certificate does not contain Subject Alternative Names") c.san)
  require (has_name names.ip_values bind_address)
      (failure "Certificate SAN does not include selected LAN address")
  require (names_host hostname names.dns_values)
      (failure "Certificate SAN does not include configured hostname")
  return (report x c names)

unfoldable pub validate_certificate_pair :
    X509 → ℕ → String → String → String → Option String → Act Report
unfolding lower_code same_text text_le sort
validate_certificate_pair x now certificate_path private_key_path bind_address hostname disk =
    (do
      content ← lift (read_file certificate_path disk)
      certificate ← lift (given unparsed (x.load_certificate content))
      key_content ← lift (read_file private_key_path disk)
      key ← lift (given unparsed (x.load_key key_content))
      validate_pair x now bind_address hostname certificate key)
      disk

-- `hostname or socket.gethostname() or "DroidWebDisplay"`
abbrev pub common_name_of : Machine → Option String → String
common_name_of m none = if str_eq m.hostname "" then "DroidWebDisplay" else m.hostname
common_name_of m (some name) =
    if str_eq name "" then if str_eq m.hostname "" then "DroidWebDisplay" else m.hostname else name

abbrev pub host_names : Machine → String → List String
host_names m name =
    "localhost"
    ∷ name
    ∷ (if not (str_eq m.hostname "") && not (str_eq m.hostname name) then m.hostname ∷ [] else [])

abbrev pub all_dns : X509 → List String → Bool
all_dns x [] = true
all_dns x (name ∷ names) = x.dns_name name && all_dns x names

abbrev pub built : X509 → Machine → Address → String → ℕ → Certificate
built x m address name validity_days = record {
  public_key = x.public_of m.generated_key;
  common_name = name;
  not_before = m.now - 300;
  not_after = m.now + validity_days * 86400;
  san =
      some
        (record { ip_values = address.shown ∷ "127.0.0.1" ∷ []; dns_values = host_names m name });
}

-- `later` is the clock when the finished files are validated.
unfoldable pub generate_certificate :
    Ipaddress → X509 → Machine → ℕ → String → String → String → Option String → ℕ → Act Report
unfolding validate_certificate_pair
generate_certificate ip x m later certificate_path private_key_path bind_address hostname days = do
  require (leb 30 days && leb days 825)
      (failure "Certificate validity must be between 30 and 825 days")
  address ← lift (given (misfit value_error) (ip.ip_address bind_address))
  require (address.version == 4 && address.is_private && not address.is_loopback)
      (failure "Certificate LAN address must be private IPv4")
  let name = common_name_of m hostname
  require (all_dns x (host_names m name)) (misfit value_error)
  require (x.name_attribute name) (misfit value_error)
  write_file m private_key_path (x.key_bytes m.generated_key)
  write_file m certificate_path (x.certificate_bytes (built x m address name days))
  validate_certificate_pair x later certificate_path private_key_path bind_address hostname
