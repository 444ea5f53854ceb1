-- ===== src/Network/Firewall.antt =====
-- `FirewallManager` of droid_web_display/network_access.py.
use Prim.Native.Char.{Char, code}
use droid_web_display.Common.{
  String, Bool, false, List, [], ◌∷◌, ◌++◌, ◌==◌, if◌then◌else◌, Result, ok, err, take_last,
}
use droid_web_display.Common.Text.{chars, of_chars}
use droid_web_display.Common.Integers.{ℤ, pos, negsuc, str_of}
use droid_web_display.Network.Types.{NetworkAccessConfig}

-- `s.replace("'", "''")`
unfoldable pub escaped : List Char → List Char
escaped [] = []
escaped (c ∷ s) = if code c == 39 then c ∷ c ∷ escaped s else c ∷ escaped s

-- `",".join(texts)`
unfoldable pub joined : List String → List Char
joined [] = []
joined (s ∷ []) = chars s
joined (s ∷ t ∷ ss) = chars s ++ "," ∷ joined (t ∷ ss)

abbrev pub head_text : List Char
head_text = chars "Get-NetFirewallRule -DisplayName '"

abbrev pub remove_text : List Char
remove_text = chars "' -ErrorAction SilentlyContinue | Remove-NetFirewallRule"

unfoldable pub remove_command : NetworkAccessConfig → List Char
unfolding escaped chars
remove_command c = head_text ++ (escaped (chars c.firewall.rule_name) ++ remove_text)

abbrev pub create_text : List Char
create_text = chars "; New-NetFirewallRule -DisplayName '"

abbrev pub port_text : List Char
port_text = chars "' -Direction Inbound -Action Allow -Protocol TCP -LocalPort "

abbrev pub remote_text : List Char
remote_text = chars " -Profile Private -RemoteAddress '"

abbrev pub remotes : NetworkAccessConfig → List Char
remotes c = str_of c.port ++ (remote_text ++ (joined c.allowed_networks ++ chars "'"))

unfoldable pub create_command : NetworkAccessConfig → List Char
unfolding remove_command escaped joined chars str_of
create_command c =
    remove_command c
    ++ (create_text ++ (escaped (chars c.firewall.rule_name) ++ (port_text ++ remotes c)))

unfoldable pub command_for : NetworkAccessConfig → Bool → List String
unfolding create_command remove_command of_chars
command_for c remove =
    "-NoProfile"
    ∷ "-NonInteractive"
    ∷ "-ExecutionPolicy"
    ∷ "Bypass"
    ∷ "-Command"
    ∷ of_chars (if remove then remove_command c else create_command c)
    ∷ []

-- A finished process, or the text of the OSError that its start raised.
pub record Finished : Type 0 where
  pub returncode : ℤ
  pub stdout : String
  pub stderr : String

pub data Applied : Type 0 where
  skipped : String → List String → Applied
  ran : Bool → Finished → List String → Applied

-- `text[-4000:]`
abbrev pub last_part : String → String
last_part s = of_chars (take_last 4000 (chars s))

abbrev pub is_zero : ℤ → Bool
is_zero (pos n) = n == 0
is_zero (negsuc n) = false

abbrev pub shortened : Finished → Finished
shortened f = record f { stdout = last_part f.stdout; stderr = last_part f.stderr }

unfoldable pub apply :
    Bool → (List String → Result String Finished) → String → NetworkAccessConfig → Bool → Applied
unfolding command_for of_chars chars
apply is_windows run executable c remove =
    let argv = executable ∷ command_for c remove in
    if is_windows
    then elim (run argv) [
      | err reason ↦ skipped reason argv
      | ok f ↦ ran (is_zero f.returncode) (shortened f) argv
    ]
    else skipped "Windows-only" argv
