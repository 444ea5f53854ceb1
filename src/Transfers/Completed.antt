-- ===== src/Transfers/Completed.antt =====
-- What a completed run of a transfer says of the sizes.
use droid_web_display.Common.{
  ℕ, String, true, List, [], ◌∷◌, ◌≡◌, refl, Option, none, is_some, if◌then◌else◌, some, ok, err,
}
use droid_web_display.Transfers.Types.{
  TransferRecord, upload, download, completed, Work, Surroundings,
}
use droid_web_display.Transfers.Runs.{exists, report}

-- An ended run whose sizes matched.
abbrev pub IsCompleted : Work → Type 0
IsCompleted w =
    (w.item.state ≡ completed)
    × (w.item.verification ≡ some "size-match")
    × (is_some w.item.ended_at ≡ true)

-- The size of what the device has under a path at the end.
abbrev pub size_at : Surroundings → String → Option ℕ
size_at e path = elim (e.arrived path) [
  | err f ↦ none
  | ok stat ↦ if exists stat then some stat.size else none
]

-- An upload whose file the device holds under the record's path, with the size of the record.
abbrev pub IsUploaded : Surroundings → Work → Type 0
IsUploaded e w =
    IsCompleted w
    × (size_at e w.item.destination_path ≡ some w.item.bytes_transferred)
    × (w.item.size ≡ some w.item.bytes_transferred)
    × (w.item.direction ≡ upload)

-- The size that the device gives for a path before a download.
abbrev pub source_size : Surroundings → String → Option ℕ
source_size e path = elim (e.stat_of path) [ err f ↦ none | ok stat ↦ some stat.size ]

-- A download whose partial file has the size of its source.
abbrev pub IsDownloaded : Surroundings → Work → Type 0
IsDownloaded e w =
    IsCompleted w
    × (e.partial_size ≡ some w.item.bytes_transferred)
    × (source_size e w.item.source_path ≡ some w.item.bytes_transferred)
    × (w.item.direction ≡ download)

abbrev pub IsUpload : Work → Type 0
IsUpload w = w.item.direction ≡ upload

pub report-bound :
    (rs : List (ℕ × Option ℕ × ℕ)) (r : TransferRecord)
    → ((report rs r).destination_path ≡ r.destination_path)
      × ((report rs r).source_path ≡ r.source_path)
      × ((report rs r).direction ≡ r.direction)
unfolding report
report-bound [] r = (refl, refl, refl)
report-bound ((done, total, elapsed) ∷ rs) r = report-bound rs _
