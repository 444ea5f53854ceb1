-- ===== src/Network/Restored.antt =====
-- A saved configuration is loaded again.
use droid_web_display.Common.{
  String, Bool, false, ◌≡◌, ◌≢◌, refl, ap, ◌∙◌, inl, inr, Option, none, some, List, [], ◌∷◌, map,
  if◌then◌else◌, ok, eq_iff, arith, Option-cases, Bool-cases,
}
use droid_web_display.Common.Json.{
  object, Conversions, str, truth, items_of, texts, text_or_null, iterate, fields_or_empty, get,
  int,
}
use droid_web_display.Common.Raises.{Result-cases}
use droid_web_display.Network.Types.{NetworkAccessConfig, Ipaddress}
use droid_web_display.Network.Config.{
  is_lan, check_networks, text_if, strip_some, validate, from_dict, to_dict,
}
use droid_web_display.Network.Store.{Content, readable, load, save}
use droid_web_display.Network.Accepted.{validate_same}

-- A text that is given is not empty.
abbrev IsFilled : Option String → Type 0
IsFilled none = Unit
IsFilled (some s) = s ≢ ""

-- No text is empty that stands for none when it is, and the host name has no white space around.
pub record IsNormal (c : NetworkAccessConfig) : Type 0 where
  pub hostname : IsFilled c.hostname
  pub stripped : strip_some c.hostname ≡ c.hostname
  pub certificate_path : IsFilled c.tls.certificate_path
  pub private_key_path : IsFilled c.tls.private_key_path

texts_back : (k : Conversions) (ss : List String) → map (str k) (items_of (texts ss)) ≡ ss
unfolding str items_of texts
texts_back k [] = refl
texts_back k (s ∷ ss) = cc (texts_back k ss)

text_back : (k : Conversions) (o : Option String) → IsFilled o → text_if k (text_or_null o) ≡ o
unfolding truth str
text_back k none f = refl
text_back k (some s) f = ground (arith, f, eq_iff s "")

validate_anywhere :
    (ip : Ipaddress) (files : Option (String → Bool)) (c d : NetworkAccessConfig)
    → validate ip files c ≡ ok d
    → validate ip none c ≡ ok d
unfolding validate
validate_anywhere ip files c d h = ground (
  arith,
  h,
  Option-cases (ip.ip_address c.bind_address),
  Result-cases (check_networks ip c.allowed_networks),
  Option-cases files,
)

from_dict-to_dict :
    (ip : Ipaddress) (k : Conversions) (c : NetworkAccessConfig)
    → IsNormal c
    → from_dict ip k (to_dict false c) ≡ validate ip none c
unfolding from_dict to_dict truth str int iterate fields_or_empty get
from_dict-to_dict ip k c n =
    rw
      (
        texts_back k c.allowed_networks,
        text_back k c.hostname n.hostname,
        text_back k c.tls.certificate_path n.certificate_path,
        text_back k c.tls.private_key_path n.private_key_path,
      )
      (ap (λ h. validate ip none (record c { hostname = h })) n.stripped)

save_writes :
    (ip : Ipaddress) (is_file : String → Bool) (writable : Bool) (c : NetworkAccessConfig)
    (old : Option Content)
    → (save ip is_file writable c old).0 ≡ ok tt
    → (validate ip none c ≡ ok c)
      × ((save ip is_file writable c old).1 ≡ some (readable (object (to_dict false c))))
unfolding save
save_writes ip is_file writable c old h =
    let files = if is_lan c then some is_file else none in
    elim (Result-cases (validate ip files c)) [
      | inr (f, e) ↦ ground (arith, h, e)
      | inl (d, e) ↦ elim (Bool-cases writable) [
        | inr w ↦ ground (arith, h, e, w)
        | inl w ↦ (
          validate_anywhere ip files c d e ∙ ap ok (validate_same ip files c d e),
          rw (e, w) refl,
        )
      ]
    ]

-- A configuration that was saved is what the store then loads, whichever mode it is in. Its texts
-- that may be missing are not empty, and its host name has no white space around it.
pub load-save :
    (ip : Ipaddress) (k : Conversions) (is_file : String → Bool) (writable : Bool)
    (c : NetworkAccessConfig) (old : Option Content)
    → IsNormal c
    → (save ip is_file writable c old).0 ≡ ok tt
    → load ip k (save ip is_file writable c old).1 ≡ ok c
unfolding load
load-save ip k is_file writable c old n h =
    let (v, w) = save_writes ip is_file writable c old h in
    ap (load ip k) w ∙ from_dict-to_dict ip k c n ∙ v
