-- ===== src/Network/Issued.antt =====
-- A certificate that was generated is valid until it ends.
use droid_web_display.Common.{
  ℕ, ◌+◌, ◌*◌, ◌≤◌, ◌<◌, String, true, false, ◌≡◌, ◌≢◌, refl, sym, ap, ◌∙◌, Option, none, some, [],
  ◌∷◌, ◌==◌, ltb, str_eq, eq_iff, arith, insert, lookup, lookup-insert, ok, lt→ltb, le→leb,
}
use droid_web_display.Common.Text.{lower}
use droid_web_display.Network.Types.{Address, Ipaddress}
use droid_web_display.Network.Origins.{same_text_self}
use droid_web_display.Network.Certificates.{
  AltNames, Certificate, X509, Machine, Report, Disk, report, names_host, has_name, validate_pair,
  validate_certificate_pair, common_name_of, host_names, all_dns, built, generate_certificate,
}

-- The conditions under which a certificate can be issued for an address.
pub record IsIssuable (x : X509) (m : Machine)
    (certificate_path private_key_path bind_address : String) (hostname : Option String) (days : ℕ)
    (a : Address) : Type 0 where
  pub lower_bound : 30 ≤ days
  pub upper_bound : days ≤ 825
  pub shown : a.shown ≡ bind_address
  pub version : a.version ≡ 4
  pub is_private : a.is_private ≡ true
  pub is_remote : a.is_loopback ≡ false
  pub names : all_dns x (host_names m (common_name_of m hostname)) ≡ true
  pub common_name : x.name_attribute (common_name_of m hostname) ≡ true
  pub certificate_writable : m.writable certificate_path ≡ true
  pub key_writable : m.writable private_key_path ≡ true
  pub apart : certificate_path ≢ private_key_path

abbrev alt_names : Machine → Address → String → AltNames
alt_names m a name = record {
  ip_values = a.shown ∷ "127.0.0.1" ∷ [];
  dns_values = host_names m name;
}

version_is : (v : ℕ) → v ≡ 4 → (v == 4) ≡ true
version_is v h = ground (arith, h)

names_host-own :
    (m : Machine) (hostname : Option String)
    → names_host hostname (host_names m (common_name_of m hostname)) ≡ true
names_host-own m none = refl
names_host-own m (some name) = ground (arith, same_text_self (lower name), eq_iff name "")

validate_pair-ok :
    (x : X509) (t : ℕ) (bind_address : String) (hostname : Option String) (c : Certificate)
    (names : AltNames) (key : String) (disk : Disk)
    → str_eq c.public_key (x.public_of key) ≡ true
    → ltb t c.not_after ≡ true
    → c.san ≡ some names
    → has_name names.ip_values bind_address ≡ true
    → names_host hostname names.dns_values ≡ true
    → validate_pair x t bind_address hostname c key disk ≡ (ok (report x c names), disk)
validate_pair-ok x t bind_address hostname c names key disk p l s b h = rw (p, l, s, b, h) refl

-- The certificate that is issued, the report of it, and the disk once both files are written.
abbrev pub issued : X509 → Machine → Address → Option String → ℕ → Certificate
issued x m a hostname days = built x m a (common_name_of m hostname) days

abbrev pub issued_report : X509 → Machine → Address → Option String → ℕ → Report
issued_report x m a hostname days =
    report x (issued x m a hostname days) (alt_names m a (common_name_of m hostname))

abbrev written : X509 → Machine → Address → Option String → ℕ → String → String → Disk → Disk
written x m a hostname days certificate_path private_key_path disk =
    insert certificate_path (x.certificate_bytes (issued x m a hostname days))
      (insert private_key_path (x.key_bytes m.generated_key) disk)

-- What is written is read back.
pub record IsLawful (x : X509) (c : Certificate) (k : String) : Type 0 where
  pub certificate : x.load_certificate (x.certificate_bytes c) ≡ some c
  pub key : x.load_key (x.key_bytes k) ≡ some k

module _ (x : X509) (m : Machine) (certificate_path private_key_path bind_address : String)
    (hostname : Option String) (days : ℕ) (a : Address)
    (lawful : IsLawful x (issued x m a hostname days) m.generated_key)
    (i : IsIssuable x m certificate_path private_key_path bind_address hostname days a) where
  read_certificate :
      (disk : Disk)
      → lookup certificate_path (written x m a hostname days certificate_path private_key_path disk)
        ≡ some (x.certificate_bytes (issued x m a hostname days))
  read_certificate disk =
      let c = x.certificate_bytes (issued x m a hostname days) in
      let before = insert private_key_path (x.key_bytes m.generated_key) disk in
      lookup-insert certificate_path certificate_path c before
      ∙ rw ((eq_iff certificate_path certificate_path).1 refl) refl

  read_key :
      (disk : Disk)
      → lookup private_key_path (written x m a hostname days certificate_path private_key_path disk)
        ≡ some (x.key_bytes m.generated_key)
  read_key disk =
      let c = x.certificate_bytes (issued x m a hostname days) in
      let k = x.key_bytes m.generated_key in
      ground (
        arith,
        lookup-insert certificate_path private_key_path c (insert private_key_path k disk),
        lookup-insert private_key_path private_key_path k disk,
        eq_iff certificate_path private_key_path,
        i.apart,
        eq_iff private_key_path private_key_path,
      )

  validate-written :
      (t : ℕ) (disk : Disk)
      → t < m.now + days * 86400
      → validate_certificate_pair x t certificate_path private_key_path bind_address hostname
          (written x m a hostname days certificate_path private_key_path disk)
        ≡ (
          ok (issued_report x m a hostname days),
          written x m a hostname days certificate_path private_key_path disk,
        )
  unfolding validate_certificate_pair
  validate-written t disk l =
      rw
        (
          read_certificate disk,
          lawful.certificate,
          read_key disk,
          lawful.key,
          validate_pair-ok x t bind_address hostname (issued x m a hostname days)
              (alt_names m a (common_name_of m hostname)) m.generated_key
              (written x m a hostname days certificate_path private_key_path disk)
              ((eq_iff (x.public_of m.generated_key) (x.public_of m.generated_key)).1 refl)
              (lt→ltb t (m.now + days * 86400) l) refl
              (rw ((eq_iff bind_address a.shown).1 (sym i.shown)) refl) (names_host-own m hostname),
        )
        refl

  -- Under these conditions issuing writes both files and ends in their validation.
  generate_certificate-written :
      (ip : Ipaddress) (later : ℕ) (disk : Disk)
      → ip.ip_address bind_address ≡ some a
      → generate_certificate ip x m later certificate_path private_key_path bind_address hostname
          days disk
        ≡ validate_certificate_pair x later certificate_path private_key_path bind_address hostname
            (written x m a hostname days certificate_path private_key_path disk)
  unfolding generate_certificate
  generate_certificate-written ip later disk e =
      rw
        (
          le→leb 30 days i.lower_bound,
          le→leb days 825 i.upper_bound,
          e,
          version_is a.version i.version,
          i.is_private,
          i.is_remote,
          i.names,
          i.common_name,
          i.key_writable,
          i.certificate_writable,
        )
        refl

  -- A certificate for a private IPv4 address, of 30 to 825 days, is issued and reported, and until
  -- its last second its files pass validation with the same report. The address is written in its
  -- standard form, the two files differ and can be written, the host names can stand in a
  -- certificate, the first of them as its common name too, and what is written is read back.
  pub validate_certificate_pair-generate_certificate :
      (ip : Ipaddress) (later t : ℕ) (disk : Disk)
      → ip.ip_address bind_address ≡ some a
      → later < m.now + days * 86400
      → t < m.now + days * 86400
      → ((generate_certificate ip x m later certificate_path private_key_path bind_address hostname
            days disk).0
          ≡ ok (issued_report x m a hostname days))
        × ((validate_certificate_pair x t certificate_path private_key_path bind_address hostname
              (generate_certificate ip x m later certificate_path private_key_path bind_address
                hostname days disk).1).0
            ≡ ok (issued_report x m a hostname days))
  validate_certificate_pair-generate_certificate ip later t disk e l r =
      let made = generate_certificate-written ip later disk e ∙ validate-written later disk l in
      (
        ap (λ s. s.0) made,
        ap
              (λ s.
                (validate_certificate_pair x t certificate_path private_key_path bind_address
                  hostname s.1).0)
              made
            ∙ ap (λ s. s.0) (validate-written t disk r),
      )
