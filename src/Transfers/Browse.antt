-- ===== src/Transfers/Browse.antt =====
-- Looking at and deleting what is on the device, in droid_web_display/transfers/manager.py.
use droid_web_display.Common.{
  ℕ, String, Bool, true, false, not, ◌&&◌, ◌||◌, Option, none, some, List, [], ◌∷◌, ◌==◌, leb, ltb,
  any, str_eq, if◌then◌else◌, take, Result, ok, err, Method, return, lift, require, ◌>>=◌, ◌>>◌,
}
use droid_web_display.Common.Sort.{sort}
use droid_web_display.Common.Text.{chars, of_chars, lower, lower_code}
use droid_web_display.Transfers.Types.{Fault, not_found, transfer_error, validation, AndroidStat}
use droid_web_display.Transfers.Runs.{exists, is_directory}
use droid_web_display.Transfers.Paths.{parts, normalize_android_path, is_android_storage_root}
use droid_web_display.Transfers.Filenames.{last_part}

pub record AndroidEntry : Type 0 where
  pub name : String
  pub path : String
  pub mode : ℕ
  pub size : ℕ
  pub modified_at : ℕ
  pub directory : Bool

-- What the device answers to a deletion: its state, the two looks, and the outcome of `rm`.
pub record Phone : Type 0 where
  pub ready_state : Result Fault String
  pub before : Result Fault AndroidStat
  pub removed : Result Fault (Unit {0})
  pub after : Result Fault AndroidStat
  -- a failure of the media scan of the kind that is only logged counts as `ok`
  pub scan : Option (Result Fault (Unit {0}))

abbrev pub Ask : Type 0 → Type 0
Ask A = Method Fault (Unit {0}) A

abbrev pub ready : Result Fault String → Result Fault (Unit {0})
ready (err f) = err f
ready (ok s) =
    if str_eq s "device" then ok tt else err (transfer_error "Android device is not ready")

abbrev pub rescan : Option (Result Fault (Unit {0})) → Result Fault (Unit {0})
rescan none = ok tt
rescan (some r) = r

-- The path that was deleted, and whether it was a folder.
unfoldable pub delete_android : Phone → String → Ask (String × Bool)
delete_android p path = do
  normalized ← lift (normalize_android_path path)
  is_root ← lift (is_android_storage_root normalized)
  require (not is_root) (validation "Android storage roots cannot be deleted")
  lift (ready p.ready_state)
  stat ← lift p.before
  require (exists stat) not_found
  lift p.removed
  remaining ← lift p.after
  require (not (exists remaining))
      (transfer_error "Android file or folder still exists after deletion")
  lift (rescan p.scan)
  return (normalized, is_directory stat)

-- A row of the media store.
pub record MediaFile : Type 0 where
  pub path : String
  pub size : ℕ
  pub modified_at : ℕ

abbrev pub picture : String → MediaFile → AndroidEntry
picture path f = record {
  name = of_chars (last_part (parts (chars path)));
  path = path;
  mode = 0o100664;
  size = f.size;
  modified_at = f.modified_at;
  directory = false;
}

-- The loop over the media files, with the paths it has seen; a path outside the roots is left out.
unfoldable pub pictures : List String → List MediaFile → List AndroidEntry
pictures seen [] = []
pictures seen (f ∷ files) = elim (normalize_android_path f.path) [
  | err fault ↦ pictures seen files
  | ok path ↦ elim (any (str_eq path) seen) [
    | true ↦ pictures seen files
    | false ↦ picture path f ∷ pictures (path ∷ seen) files
  ]
]

-- The order of texts by code points, on lowered text.
unfoldable pub precedes : List ℕ → List ℕ → Bool
precedes [] b = true
precedes (x ∷ a) [] = false
precedes (x ∷ a) (y ∷ b) = ltb x y || (x == y && precedes a b)

unfoldable pub newer : AndroidEntry → AndroidEntry → Bool
unfolding precedes lower_code
newer a b =
    ltb b.modified_at a.modified_at
    || (a.modified_at == b.modified_at && precedes (lower a.name) (lower b.name))

unfoldable pub list_recent_pictures : Phone → ℕ → List MediaFile → Ask (List AndroidEntry)
list_recent_pictures p limit files = do
  require (leb 1 limit && leb limit 50) (validation "recent picture limit must be in range 1..50")
  lift (ready p.ready_state)
  return (take limit (sort newer (pictures [] files)))
