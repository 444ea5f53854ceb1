-- ===== src/Network/Origins.antt =====
-- Which origins a policy accepts.
use Prim.Native.Char.{Char, code}
use mathlib.Core.Path.{subst}
use droid_web_display.Common.{
  ℕ, String, Bool, true, false, ◌≡◌, refl, ap, Option, none, some, List, [], ◌∷◌, ◌++◌,
  if◌then◌else◌, arith, map, ◌==◌, ◌≢◌, sym, ◌∙◌, inl, inr, Bool-cases, str_eq, eq_iff,
}
use droid_web_display.Common.Text.{chars, skip_last, lower_code}
use droid_web_display.Common.Integers.{ℤ, pos, negsuc}
use droid_web_display.Network.Config.{is_lan, url, public_host}
use droid_web_display.Network.Policy.{
  lowered, NetworkPolicy, same_text, is_among, normal_origin, is_slash, lan_origins,
  allowed_origins, origin_allowed,
}

pub same_text_self : (s : List ℕ) → same_text s s ≡ true
unfolding same_text
same_text_self [] = refl
same_text_self (c ∷ s) = ground (arith, same_text_self s)

skip_last_keep :
    (p : Char → Bool) (c : Char) (s : List Char)
    → p c ≡ false
    → skip_last p (c ∷ s) ≡ c ∷ skip_last p s
unfolding skip_last
skip_last_keep p c s h = keep (skip_last p s)
  where
    keep :
        (t : List Char)
        → (elim t [ [] ↦ if p c then [] else c ∷ [] | d ∷ rest ↦ c ∷ d ∷ rest ]) ≡ c ∷ t
    keep [] = rw (h) refl
    keep (d ∷ rest) = refl

origin-cons :
    (c : Char) (s : List Char)
    → is_slash c ≡ false
    → normal_origin (c ∷ s) ≡ lower_code (code c) ∷ normal_origin s
origin-cons c s h = ap (map (λ d. lower_code (code d))) (skip_last_keep is_slash c s h)

origin_word :
    (a b c d e : Char) (s : List Char)
    → is_slash a ≡ false
    → is_slash b ≡ false
    → is_slash c ≡ false
    → is_slash d ≡ false
    → is_slash e ≡ false
    → normal_origin (a ∷ b ∷ c ∷ d ∷ e ∷ s)
      ≡ map (λ x. lower_code (code x)) (a ∷ b ∷ c ∷ d ∷ e ∷ []) ++ normal_origin s
origin_word a b c d e s ha hb hc hd he = cc (
  origin-cons a (b ∷ c ∷ d ∷ e ∷ s) ha,
  origin-cons b (c ∷ d ∷ e ∷ s) hb,
  origin-cons c (d ∷ e ∷ s) hc,
  origin-cons d (e ∷ s) hd,
  origin-cons e s he,
)

slash_lowered : (m n : ℕ) → lower_code m ≡ lower_code n → (m == 47) ≡ (n == 47)
unfolding lower_code
slash_lowered m n h = ground (arith, h)

lowered_head :
    (c d : Char) (s t : List Char)
    → lowered (c ∷ s) ≡ lowered (d ∷ t)
    → (lower_code (code c) ≡ lower_code (code d)) × (lowered s ≡ lowered t)
lowered_head c d s t h = (cc (h), cc (h))

-- What `rstrip` makes of a text, from what it makes of all but the first character.
abbrev cut_to : Char → List Char → List Char
cut_to c [] = if is_slash c then [] else c ∷ []
cut_to c (d ∷ rest) = c ∷ d ∷ rest

cut_to-lowered :
    (c d : Char) (x y : List Char)
    → lower_code (code c) ≡ lower_code (code d)
    → lowered x ≡ lowered y
    → lowered (cut_to c x) ≡ lowered (cut_to d y)
cut_to-lowered c d [] [] e h = elim (Bool-cases (is_slash d)) [
  | inl k ↦ rw (slash_lowered (code c) (code d) e, k) refl
  | inr k ↦ rw (slash_lowered (code c) (code d) e, k) (rw (e) refl)
]
cut_to-lowered c d [] (b ∷ y) e h = cc (h)
cut_to-lowered c d (a ∷ x) [] e h = cc (h)
cut_to-lowered c d (a ∷ x) (b ∷ y) e h = cc (e, h)

skip_last-cut :
    (c : Char) (s : List Char) → skip_last is_slash (c ∷ s) ≡ cut_to c (skip_last is_slash s)
unfolding skip_last
skip_last-cut c s = same (skip_last is_slash s)
  where
    same :
        (t : List Char)
        → (elim t [ [] ↦ if is_slash c then [] else c ∷ [] | d ∷ rest ↦ c ∷ d ∷ rest ]) ≡ cut_to c t
    same [] = refl
    same (d ∷ rest) = refl

-- The normal form of an origin does not look at the case of its letters.
normal_origin-lowered :
    (s t : List Char) → lowered s ≡ lowered t → normal_origin s ≡ normal_origin t
normal_origin-lowered [] [] h = refl
normal_origin-lowered [] (d ∷ t) h = cc (h)
normal_origin-lowered (c ∷ s) [] h = cc (h)
normal_origin-lowered (c ∷ s) (d ∷ t) h =
    let (e, k) = lowered_head c d s t h in
    ap lowered (skip_last-cut c s)
    ∙ (cut_to-lowered c d (skip_last is_slash s) (skip_last is_slash t) e
          (normal_origin-lowered s t k)
        ∙ sym (ap lowered (skip_last-cut d t)))

-- The origin that a browser sends for a page of HTTPS, up to the case of its letters: the port is
-- left out where it is 443, the default of the scheme.
abbrev pub web_origin : String → ℤ → List Char
web_origin host (pos n) =
    if n == 443 then chars "https://" ++ chars host else url "https" host (pos n)
web_origin host (negsuc n) = url "https" host (negsuc n)

web_origin-url :
    (host : String) (port : ℤ) → port ≢ pos 443 → web_origin host port ≡ url "https" host port
web_origin-url host (pos n) h = elim (Bool-cases (n == 443)) [
  | inl e ↦ absurd (h (ap pos (ground (arith, e))))
  | inr e ↦ rw e refl
]
web_origin-url host (negsuc n) h = refl

http_mismatch :
    (s : List Char) (host : String) (port : ℤ)
    → same_text (normal_origin (chars "http://" ++ s)) (normal_origin (url "https" host port))
      ≡ false
unfolding chars same_text lower_code
http_mismatch s host port =
    rw
      (
        origin_word "h" "t" "t" "p" ":" ("/" ∷ "/" ∷ s) refl refl refl refl refl,
        origin_word "h" "t" "t" "p" "s" (url "" host port) refl refl refl refl refl,
      )
      refl

module _ (p : NetworkPolicy) (m : p.config.mode ≡ "lan-https") where
  is_lan-mode : is_lan p.config ≡ true
  is_lan-mode = (eq_iff p.config.mode "lan-https").1 m

  lan_own :
      (name : Option String)
      → p.config.hostname ≡ name
      → is_among
          (normal_origin (url "https" (public_host p.config) p.config.port))
          (map normal_origin (lan_origins p.config))
        ≡ true
  lan_own none h =
      rw (h)
        (rw (same_text_self (normal_origin (url "https" p.config.bind_address p.config.port))) refl)
  lan_own (some name) h = elim (Bool-cases (str_eq name "")) [
    | inl e ↦
        rw (h, e)
          (rw (same_text_self (normal_origin (url "https" p.config.bind_address p.config.port)))
            refl)
    | inr e ↦
        rw (h, e) (ground (arith, same_text_self (normal_origin (url "https" name p.config.port))))
  ]

  lan_accepts :
      (c : Char) (s : List Char)
      → is_among (normal_origin (c ∷ s)) (map normal_origin (lan_origins p.config)) ≡ true
      → origin_allowed p (some (c ∷ s)) ≡ true
  unfolding origin_allowed allowed_origins
  lan_accepts c s h = rw (is_lan-mode) (ground (arith, h))

  web_accepted :
      (o : List Char)
      → lowered o ≡ lowered (url "https" (public_host p.config) p.config.port)
      → origin_allowed p (some o) ≡ true
  unfolding chars
  web_accepted [] h = cc (h)
  web_accepted (c ∷ s) h = lan_accepts c s (
      subst (λ n. is_among n (map normal_origin (lan_origins p.config)) ≡ true)
        (sym (normal_origin-lowered (c ∷ s) (url "https" (public_host p.config) p.config.port) h))
        (lan_own p.config.hostname refl))

  -- In LAN mode, on a port other than 443, the page that the server serves under its own address is
  -- of an origin that it accepts, as a browser sends it in whatever case of its letters.
  pub origin_allowed-web_origin :
      (o : List Char)
      → lowered o ≡ lowered (web_origin (public_host p.config) p.config.port)
      → p.config.port ≢ pos 443
      → origin_allowed p (some o) ≡ true
  origin_allowed-web_origin o h other =
      web_accepted o (h ∙ ap lowered (web_origin-url (public_host p.config) p.config.port other))

  lan_mismatch :
      (s : List Char) (name : Option String)
      → p.config.hostname ≡ name
      → is_among (normal_origin (chars "http://" ++ s)) (map normal_origin (lan_origins p.config))
        ≡ false
  lan_mismatch s none h = rw (h, http_mismatch s p.config.bind_address p.config.port) refl
  lan_mismatch s (some name) h = elim (Bool-cases (str_eq name "")) [
    | inl e ↦ rw (h, e, http_mismatch s p.config.bind_address p.config.port) refl
    | inr e ↦
        rw
          (
            h,
            e,
            http_mismatch s p.config.bind_address p.config.port,
            http_mismatch s name p.config.port,
          )
          refl
  ]

  -- In LAN mode no origin of plain HTTP is accepted.
  pub origin_allowed-http : (s : List Char) → origin_allowed p (some (chars "http://" ++ s)) ≡ false
  unfolding origin_allowed allowed_origins chars
  origin_allowed-http s = rw (is_lan-mode) (
      ground (
        arith,
        http_mismatch s "127.0.0.1" p.config.port,
        http_mismatch s "localhost" p.config.port,
        lan_mismatch s p.config.hostname refl,
      ))
