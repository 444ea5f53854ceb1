-- ===== src/Network/Admission.antt =====
-- Which clients a policy lets in.
use mathlib.Core.Path.{subst}
use droid_web_display.Common.{
  ◌≤◌, String, true, false, ◌≡◌, refl, sym, ap, ◌∙◌, ◌⊎◌, inl, inr, ◌↔◌, none, some, List, [], ◌∷◌,
  ok, any, All, str_eq, eq_iff, arith, Option-cases, Bool-cases,
}
use droid_web_display.Common.Raises.{Result-cases}
use droid_web_display.Network.Types.{NetworkAccessConfig, Address, Subnet, Ipaddress}
use droid_web_display.Network.Config.{is_lan, validate}
use droid_web_display.Network.Policy.{
  NetworkPolicy, networks_of, policy_of, address_allowed, client_allowed,
}
use droid_web_display.Network.Accepted.{IsLanNetwork, validate-IsAccepted, validate_same}

-- A network that one of the entries names holds the address.
abbrev pub IsHeld : Ipaddress → List String → Address → Type 0
IsHeld ip [] a = ⊥
IsHeld ip (entry ∷ entries) a =
    ((n : Subnet) × (ip.ip_network entry ≡ some n) × (ip.holds n a ≡ true)) ⊎ IsHeld ip entries a

-- Who may connect: a client on the machine itself, and in LAN mode an address of a listed network.
abbrev pub IsAdmitted : Ipaddress → NetworkAccessConfig → Address → Type 0
IsAdmitted ip c a =
    (a.is_loopback ≡ true) ⊎ ((c.mode ≡ "lan-https") × IsHeld ip c.allowed_networks a)

-- The names that `client_allowed` tests for are no addresses.
pub record HasNames (ip : Ipaddress) : Type 0 where
  pub empty : ip.ip_address "" ≡ none
  pub testclient : ip.ip_address "testclient" ≡ none
  pub localhost : ip.ip_address "localhost" ≡ none

networks_of-cons :
    (ip : Ipaddress) (entry : String) (entries : List String) (ns : List Subnet)
    → networks_of ip (entry ∷ entries) ≡ ok ns
    → (n : Subnet) × (rest : List Subnet) × (ip.ip_network entry ≡ some n)
      × (networks_of ip entries ≡ ok rest)
      × (n ∷ rest ≡ ns)
unfolding networks_of
networks_of-cons ip entry entries ns h = elim (Option-cases (ip.ip_network entry)) [
  | inl e ↦ ground (arith, h, e)
  | inr (n, e) ↦ elim (Result-cases (networks_of ip entries)) [
    | inr (f, r) ↦ ground (arith, h, e, r)
    | inl (rest, r) ↦ (n, rest, e, r, ground (arith, h, e, r))
  ]
]

module _ (ip : Ipaddress) (a : Address) where
  networks_of_sound :
      (entries : List String) (ns : List Subnet)
      → networks_of ip entries ≡ ok ns
      → any (λ n. ip.holds n a) ns ≡ true
      → IsHeld ip entries a
  unfolding networks_of
  networks_of_sound [] ns h k = ground (arith, h, k)
  networks_of_sound (entry ∷ entries) ns h k =
      let (n, rest, e, r, d) = networks_of-cons ip entry entries ns h in
      elim (Bool-cases (ip.holds n a)) [
        | inl y ↦ inl (n, e, y)
        | inr y ↦ inr (networks_of_sound entries rest r (ground (arith, d, k, y)))
      ]

  networks_of_complete :
      (entries : List String) (ns : List Subnet)
      → networks_of ip entries ≡ ok ns
      → IsHeld ip entries a
      → any (λ n. ip.holds n a) ns ≡ true
  networks_of_complete [] ns h k = absurd k
  networks_of_complete (entry ∷ entries) ns h (inl (m, d, y)) =
      let (n, rest, e, r, l) = networks_of-cons ip entry entries ns h in ground (arith, e, d, y, l)
  networks_of_complete (entry ∷ entries) ns h (inr later) =
      let (n, rest, e, r, l) = networks_of-cons ip entry entries ns h in
      ground (arith, l, networks_of_complete entries rest r later)

-- A policy has the configuration it was made of, and the networks of its texts.
policy_of_parts :
    (ip : Ipaddress) (c : NetworkAccessConfig) (p : NetworkPolicy)
    → policy_of ip c ≡ ok p
    → (validate ip none c ≡ ok c)
      × (p.config ≡ c)
      × (networks_of ip c.allowed_networks ≡ ok p.allowed_networks)
unfolding policy_of
policy_of_parts ip c p h = elim (Result-cases (validate ip none c)) [
  | inr (f, e) ↦ ground (arith, h, e)
  | inl (d, e) ↦ elim (Result-cases (networks_of ip c.allowed_networks)) [
    | inr (f, r) ↦ ground (arith, h, e, r)
    | inl (ns, r) ↦
        let s = validate_same ip none c d e in
        (ground (arith, e, s), ground (arith, h, e, r, s), ground (arith, h, e, r, s))
  ]
]

is_other :
    (ip : Ipaddress) (host name : String) (a : Address)
    → ip.ip_address host ≡ some a
    → ip.ip_address name ≡ none
    → str_eq host name ≡ false
is_other ip host name a e n = elim (Bool-cases (str_eq host name)) [
  | inl y ↦ let same = ap ip.ip_address ((eq_iff host name).0 y) in ground (arith, same, e, n)
  | inr y ↦ y
]

client_allowed-address :
    (ip : Ipaddress) (p : NetworkPolicy) (host : String) (a : Address)
    → HasNames ip
    → ip.ip_address host ≡ some a
    → client_allowed ip p (some host) ≡ address_allowed ip p (some a)
unfolding client_allowed
client_allowed-address ip p host a names e =
    rw
      (
        is_other ip host "testclient" a e names.testclient,
        is_other ip host "" a e names.empty,
        is_other ip host "localhost" a e names.localhost,
        e,
      )
      refl

is_lan_lem : (c d : NetworkAccessConfig) → d ≡ c → (is_lan d ≡ true) ↔ (c.mode ≡ "lan-https")
is_lan_lem c d s =
    subst (λ x. (is_lan x ≡ true) ↔ (c.mode ≡ "lan-https")) (sym s) (eq_iff c.mode "lan-https")

-- A client that gives an address is let in exactly when it is on the machine itself, or the mode is
-- LAN and one of the configured networks holds it. The policy is made of the configuration, and
-- the names that the code tests for are no addresses.
pub client_allowed-IsAdmitted :
    (ip : Ipaddress) (c : NetworkAccessConfig) (p : NetworkPolicy) (host : String) (a : Address)
    → HasNames ip
    → policy_of ip c ≡ ok p
    → ip.ip_address host ≡ some a
    → (client_allowed ip p (some host) ≡ true) ↔ IsAdmitted ip c a
unfolding client_allowed
client_allowed-IsAdmitted ip c p host a names h e =
    let (v, s, ns) = policy_of_parts ip c p h in
    let lan = is_lan_lem c p.config s in
    rw (client_allowed-address ip p host a names e) (
      (λ y. elim (Bool-cases a.is_loopback) [
        | inl l ↦ inl l
        | inr l ↦ inr (
          lan.0 (ground (arith, y, l)),
          networks_of_sound ip a c.allowed_networks p.allowed_networks ns (ground (arith, y, l)),
        )
      ]),
      (λ y. elim y [
        | inl l ↦ ground (arith, l)
        | inr (m, k) ↦
            ground
              (arith, lan.1 m, networks_of_complete ip a c.allowed_networks p.allowed_networks ns k)
      ]),
    )

-- Every address that a LAN configuration holds is in a private IPv4 network of at most 65536
-- addresses.
held_private :
    (ip : Ipaddress) (entries : List String) (a : Address)
    → All (IsLanNetwork ip) entries
    → IsHeld ip entries a
    → (n : Subnet) × (n.version ≡ 4)
      × (n.is_private ≡ true)
      × (16 ≤ n.prefixlen)
      × (ip.holds n a ≡ true)
held_private ip [] a all held = absurd held
held_private ip (entry ∷ entries) a ((n, e, v, q, l), all) (inl (m, d, y)) =
    (n, v, q, l, ground (arith, e, d, y))
held_private ip (entry ∷ entries) a (first, all) (inr held) = held_private ip entries a all held

-- A client that is let in and gives an address other than a loopback one comes from a private IPv4
-- network of at most 65536 addresses, and the server speaks TLS. The policy is made of the
-- configuration, and the names that the code tests for are no addresses.
pub client_allowed-private :
    (ip : Ipaddress) (c : NetworkAccessConfig) (p : NetworkPolicy) (host : String) (a : Address)
    → HasNames ip
    → policy_of ip c ≡ ok p
    → ip.ip_address host ≡ some a
    → a.is_loopback ≡ false
    → client_allowed ip p (some host) ≡ true
    → (c.tls.enabled ≡ true)
      × ((n : Subnet) × (n.version ≡ 4)
          × (n.is_private ≡ true)
          × (16 ≤ n.prefixlen)
          × (ip.holds n a ≡ true))
client_allowed-private ip c p host a names h e l y =
    elim ((client_allowed-IsAdmitted ip c p host a names h e).0 y) [
      | inl k ↦ ground (arith, k, l)
      | inr (m, held) ↦
          let (_, _, (_, _, k)) = (validate-IsAccepted ip c).0 (policy_of_parts ip c p h).0 in
          elim k [
            | inl (o, _, _) ↦ ground (arith, (eq_iff "local-only" "lan-https").1 (sym o ∙ m))
            | inr (_, _, _, _, _, _, t, _, all, _) ↦
                (t, held_private ip c.allowed_networks a all held)
          ]
    ]
