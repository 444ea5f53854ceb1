-- ===== src/Auth/Rules.antt =====
-- The pure functions of auth.py: PIN and duration rules, labels, and the public view of a session.
use droid_web_display.Common.{
  ℕ, String, Bool, true, ◌&&◌, Option, none, some, List, [], ◌∷◌, leb, str_eq, if◌then◌else◌,
  length, Dict, lookup, Result, ok, err,
}
use Prim.Native.String.{◌++◌ as ◌<>◌}
use droid_web_display.Common.Text.{codes, lower, contains, str_take, join_words}
use droid_web_display.Auth.Types.{
  pin_validation, duration_validation, AuthError, plain, custom_min_seconds, custom_max_seconds,
  Session, PublicSession,
}

unfoldable pub all_digits : List ℕ → Bool
all_digits [] = true
all_digits (c ∷ cs) = leb b'0' c && leb c b'9' && all_digits cs

unfoldable pub validate_pin : String → Result AuthError String
validate_pin pin =
    let n = length (codes pin) in
    if leb 4 n && leb n 12 && all_digits (codes pin) then ok pin else err (plain pin_validation)

abbrev pub trust_durations : Dict (Option ℕ)
trust_durations =
    ("browser-session", some 86400)
    ∷ ("1-hour", some 3600)
    ∷ ("1-day", some 86400)
    ∷ ("1-week", some 604800)
    ∷ ("1-month", some 2592000)
    ∷ ("1-year", some 31536000)
    ∷ ("forever", none)
    ∷ []

-- The lifetime of the session, and the age that its cookie is given.
abbrev pub cookie_age : String → Option ℕ → Option ℕ
cookie_age choice seconds =
    if str_eq choice "browser-session"
    then none
    else if str_eq choice "forever"
    then some custom_max_seconds
    else seconds

abbrev pub custom_duration : Option ℕ → Result AuthError (Option ℕ × Option ℕ)
custom_duration none = err (plain duration_validation)
custom_duration (some s) =
    if leb custom_min_seconds s && leb s custom_max_seconds
    then ok (some s, some s)
    else err (plain duration_validation)

abbrev pub listed_duration : String → Option (Option ℕ) → Result AuthError (Option ℕ × Option ℕ)
listed_duration choice none = err (plain duration_validation)
listed_duration choice (some seconds) = ok (seconds, cookie_age choice seconds)

unfoldable pub resolve_duration : String → Option ℕ → Result AuthError (Option ℕ × Option ℕ)
resolve_duration choice custom_seconds =
    if str_eq choice "custom"
    then custom_duration custom_seconds
    else listed_duration choice (lookup choice trust_durations)

unfoldable pub browser_of : List ℕ → String
browser_of ua =
    if contains (codes "firefox") ua
    then "Firefox"
    else if contains (codes "edg/") ua
    then "Edge"
    else if contains (codes "chrome") ua
    then "Chromium"
    else "Browser"

unfoldable pub platform_of : List ℕ → String
platform_of ua =
    if contains (codes "windows") ua
    then "Windows"
    else if contains (codes "linux") ua
    then "Linux"
    else if contains (codes "android") ua
    then "Android"
    else "PC"

unfoldable pub label_of_agent : String → String
label_of_agent user_agent = let ua = lower user_agent in browser_of ua <> (" on " <> platform_of ua)

unfoldable pub session_label : Option String → String → String
session_label none user_agent = label_of_agent user_agent
session_label (some label) user_agent =
    let cleaned = str_take 80 (join_words label) in
    if str_eq cleaned "" then label_of_agent user_agent else cleaned

abbrev pub public_session : Session → PublicSession
public_session s = record {
  session_id = s.session_id;
  created_at = s.created_at;
  last_seen_at = s.last_seen_at;
  expires_at = s.expires_at;
  duration = s.duration;
  custom_seconds = s.custom_seconds;
  label = s.label;
  user_agent = s.user_agent;
  client_ip = s.client_ip;
  access_mode = s.access_mode;
  revoked_at = s.revoked_at;
  revocation_reason = s.revocation_reason;
}
