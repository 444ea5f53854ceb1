-- ===== src/Network/Accepted.antt =====
-- What a configuration is that `validate` accepts.
use mathlib.Core.Path.{subst}
use droid_web_display.Common.{
  ℕ, ◌≤◌, String, true, false, ◌≡◌, ◌≢◌, refl, sym, ◌⊎◌, inl, inr, ◌↔◌, Option, Bool, none, some,
  List, [], ◌∷◌, ok, err, All, str_eq, eq_iff, arith, Option-cases, Bool-cases, Result,
}
use droid_web_display.Common.Text.{strip}
use droid_web_display.Common.Integers.{ℤ, pos, negsuc}
use droid_web_display.Network.Types.{NetworkAccessConfig, Address, Subnet, Ipaddress}
use droid_web_display.Network.Config.{
  is_port, is_local, check_networks, validate_local, validate_lan, validate,
}

-- The text is a private IPv4 network of at most 65536 addresses.
abbrev pub IsLanNetwork : Ipaddress → String → Type 0
IsLanNetwork ip entry =
    (n : Subnet) × (ip.ip_network entry ≡ some n)
    × (n.version ≡ 4)
    × (n.is_private ≡ true)
    × (16 ≤ n.prefixlen)

abbrev pub IsLocalConfig : NetworkAccessConfig → Address → Type 0
IsLocalConfig c a = (c.mode ≡ "local-only") × (a.is_loopback ≡ true) × (c.tls.enabled ≡ false)

abbrev pub IsLanConfig : Ipaddress → NetworkAccessConfig → Address → Type 0
IsLanConfig ip c a =
    (c.mode ≡ "lan-https")
    × (a.version ≡ 4)
    × (a.is_loopback ≡ false)
    × (a.is_private ≡ true)
    × (a.is_link_local ≡ false)
    × (c.bind_address ≢ "0.0.0.0")
    × (c.tls.enabled ≡ true)
    × (c.allowed_networks ≢ [])
    × All (IsLanNetwork ip) c.allowed_networks
    × (strip c.firewall.rule_name ≢ "")

abbrev pub IsAccepted : Ipaddress → NetworkAccessConfig → Type 0
IsAccepted ip c =
    (c.schema_version ≡ pos 1)
    × ((n : ℕ) × (c.port ≡ pos n) × (1 ≤ n) × (n ≤ 65535))
    × ((a : Address) × (ip.ip_address c.bind_address ≡ some a)
        × (IsLocalConfig c a ⊎ IsLanConfig ip c a))

check_networks_sound :
    (ip : Ipaddress) (entries : List String)
    → check_networks ip entries ≡ ok tt
    → All (IsLanNetwork ip) entries
unfolding check_networks
check_networks_sound ip [] h = tt
check_networks_sound ip (entry ∷ entries) h = elim (Option-cases (ip.ip_network entry)) [
  | inl e ↦ ground (arith, e)
  | inr (n, e) ↦ (
    (n, e, ground (arith, e), ground (arith, e), ground (arith, e)),
    check_networks_sound ip entries (ground (arith, e)),
  )
]

check_networks_complete :
    (ip : Ipaddress) (entries : List String)
    → All (IsLanNetwork ip) entries
    → check_networks ip entries ≡ ok tt
unfolding check_networks
check_networks_complete ip [] h = refl
check_networks_complete ip (entry ∷ entries) ((n, e, v, p, l), h) =
    rw (e) (ground (arith, check_networks_complete ip entries h))

checked : {E : Type 0} (r : Result E (Unit {0})) → (r ≡ ok tt) ⊎ ((e : E) × (r ≡ err e))
checked (ok u) = inl refl
checked (err e) = inr (e, refl)

validate_local_sound :
    (c : NetworkAccessConfig) (a : Address)
    → c.mode ≡ "local-only"
    → validate_local c a ≡ ok c
    → IsLocalConfig c a
validate_local_sound c a m h = (m, ground (arith, h), ground (arith, h))

validate_lan_sound :
    (ip : Ipaddress) (c : NetworkAccessConfig) (a : Address)
    → c.mode ≡ "lan-https"
    → validate_lan ip none c a ≡ ok c
    → IsLanConfig ip c a
validate_lan_sound ip c a m h = (
  m,
  ground (arith, h),
  ground (arith, h),
  ground (arith, h),
  ground (arith, h),
  (λ e. ground (arith, h, e, eq_iff c.bind_address "0.0.0.0")),
  ground (arith, h),
  (λ e. ground (arith, h, e)),
  check_networks_sound ip c.allowed_networks
      (elim (checked (check_networks ip c.allowed_networks)) [
        | inl e ↦ e
        | inr (f, e) ↦ ground (arith, h, e)
      ]),
  (λ e. ground (arith, h, e, eq_iff (strip c.firewall.rule_name) "")),
)

validate_local_complete :
    (c : NetworkAccessConfig) (a : Address) → IsLocalConfig c a → validate_local c a ≡ ok c
validate_local_complete c a (m, l, t) = ground (arith, l, t)

validate_lan_complete :
    (ip : Ipaddress) (c : NetworkAccessConfig) (a : Address)
    → IsLanConfig ip c a
    → validate_lan ip none c a ≡ ok c
validate_lan_complete ip c a (m, v, l, p, k, b, t, n, ns, r) =
    rw (check_networks_complete ip c.allowed_networks ns) (
      ground (
        arith,
        v,
        l,
        p,
        k,
        b,
        t,
        n,
        r,
        eq_iff c.bind_address "0.0.0.0",
        eq_iff (strip c.firewall.rule_name) "",
      ))

port_sound : (port : ℤ) → is_port port ≡ true → (n : ℕ) × (port ≡ pos n) × (1 ≤ n) × (n ≤ 65535)
port_sound (pos n) h = (n, refl, ground (arith, h), ground (arith, h))
port_sound (negsuc n) h = ground (arith, h)

validate_sound :
    (ip : Ipaddress) (c : NetworkAccessConfig) → validate ip none c ≡ ok c → IsAccepted ip c
unfolding validate
validate_sound ip c h = elim (Option-cases (ip.ip_address c.bind_address)) [
  | inl e ↦ ground (arith, h, e)
  | inr (a, e) ↦ (
    ground (arith, h),
    port_sound c.port (ground (arith, h)),
    (
      a,
      e,
      elim (Bool-cases (is_local c)) [
        | inl l ↦
            inl (
              validate_local_sound c a ((eq_iff c.mode "local-only").0 l) (ground (arith, h, e, l)))
        | inr l ↦ inr (
            validate_lan_sound ip c a ((eq_iff c.mode "lan-https").0 (ground (arith, h, l)))
              (ground (arith, h, e, l)))
      ],
    ),
  )
]

not_local : (c : NetworkAccessConfig) → c.mode ≡ "lan-https" → is_local c ≡ false
not_local c m = subst (λ x. str_eq x "local-only" ≡ false) (sym m) refl

validate_complete :
    (ip : Ipaddress) (c : NetworkAccessConfig) → IsAccepted ip c → validate ip none c ≡ ok c
unfolding validate
validate_complete ip c (v, (n, p, l, u), (a, e, inl k)) =
    ground (arith, v, p, e, l, u, eq_iff c.mode "local-only", k, validate_local_complete c a k)
validate_complete ip c (v, (n, p, l, u), (a, e, inr k)) = ground (
  arith,
  v,
  p,
  e,
  l,
  u,
  eq_iff c.mode "lan-https",
  k.0,
  not_local c k.0,
  validate_lan_complete ip c a k,
)

-- Without a look at the files, `validate` accepts exactly the following configurations: the schema
-- is 1, the port is in 1..65535, the bind address parses, and either the mode is local-only, the
-- address is loopback and TLS is off, or the mode is lan-https, the address is a private IPv4
-- address that is neither loopback nor link-local, TLS is on, every allowed network is a private
-- IPv4 network of at most 65536 addresses, there is at least one, and the rule name is not blank.
pub validate-IsAccepted :
    (ip : Ipaddress) (c : NetworkAccessConfig) → (validate ip none c ≡ ok c) ↔ IsAccepted ip c
validate-IsAccepted ip c = (validate_sound ip c, validate_complete ip c)

-- What `validate` returns is the configuration itself.
pub validate_same :
    (ip : Ipaddress) (files : Option (String → Bool)) (c d : NetworkAccessConfig)
    → validate ip files c ≡ ok d
    → d ≡ c
unfolding validate
validate_same ip files c d h = ground (arith, h, Option-cases (ip.ip_address c.bind_address))
