-- ===== src/Transfers/Downloads.antt =====
-- How the download of a transfer ends.
use droid_web_display.Common.{
  not, ◌&&◌, Bool, false, require, ◌>>◌, String, true, ◌≡◌, refl, some, ok, arith,
}
use droid_web_display.Common.Ensures.{Ensures, at_end}
use droid_web_display.Transfers.Names.{partial_path}
use droid_web_display.Transfers.Types.{
  AndroidStat, download, Fault, validation, Work, Run, Surroundings, add_event, transferring, plain,
}
use droid_web_display.Transfers.Runs.{
  is_directory, fetch, finally_unlink, download_to, download_as, resolve_duplicate, exists, persist,
  complete, run_download,
}
use droid_web_display.Transfers.Completed.{IsDownloaded, report-bound}

-- A download of a source.
abbrev IsSourced : String → Work → Type 0
IsSourced source w = (w.item.source_path ≡ source) × (w.item.direction ≡ download)

-- A fetch that goes through found as many bytes as the device gave for the source.
fetch_lem :
    (e : Surroundings) (remote : AndroidStat) (partial final source : String) (w : Work)
    → IsSourced source w
    → (u : Unit {0}) → (finally_unlink e partial (fetch e remote partial final) w).0 ≡ ok u
    → IsSourced source (finally_unlink e partial (fetch e remote partial final) w).1
      × (e.partial_size ≡ some remote.size)
unfolding fetch add_event
fetch_lem e remote partial final source w p u h = ground (arith, report-bound e.reports w.item)

-- The work of a download when its fetch begins.
abbrev fetching : Surroundings → AndroidStat → Work → Work
fetching e remote w =
    let r =
      add_event e.transferring_at "transferring" plain
        (record w.item { size = some remote.size; state = transferring }) in
    record w { item = r; saved = some r }

fetching-IsSourced :
    (e : Surroundings) (remote : AndroidStat) (source : String) (w : Work)
    → IsSourced source w
    → IsSourced source (fetching e remote w)
unfolding add_event
fetching-IsSourced e remote source w p = p

download_to-IsDownloaded :
    (e : Surroundings) (remote : AndroidStat) (partial final source : String) (w : Work)
    → IsSourced source w
    → e.stat_of source ≡ ok remote
    → (u : Unit {0}) → (download_to e remote partial final w).0 ≡ ok u
    → IsDownloaded e (download_to e remote partial final w).1
unfolding persist complete add_event
download_to-IsDownloaded e remote partial final source w p s u h = ground (
  arith,
  fetch_lem e remote partial final source (fetching e remote w)
      (fetching-IsSourced e remote source w p) u,
)

required :
    (Q : Work → Type 0) (b : Bool) (f : Fault) (m : Run (Unit {0})) (w : Work)
    → ((u : Unit {0}) → (m w).0 ≡ ok u → Q (m w).1)
    → (u : Unit {0}) → ((require b f >> m) w).0 ≡ ok u
    → Q ((require b f >> m) w).1
required Q true f m w k u h = k u h
required Q false f m w k u h = cc

download_as-IsDownloaded :
    (e : Surroundings) (final : String) (w : Work)
    → w.item.direction ≡ download
    → (u : Unit {0}) → (download_as e final w).0 ≡ ok u
    → IsDownloaded e (download_as e final w).1
download_as-IsDownloaded e final w d u h =
    let v = record w {
      item = record w.item { destination_path = final; internal_local_path = some final };
    } in
    at_end (IsDownloaded e) (e.stat_of w.item.source_path)
      (λ remote.
        require (exists remote && not (is_directory remote))
          (validation "download source is not a regular file")
        >> download_to e remote (partial_path final w.item.transfer_id) final)
      v
      (λ remote s u' k.
        required (IsDownloaded e) (exists remote && not (is_directory remote))
          (validation "download source is not a regular file")
          (download_to e remote (partial_path final w.item.transfer_id) final) v
          (download_to-IsDownloaded e remote (partial_path final w.item.transfer_id) final
            w.item.source_path v (refl, d) s)
          u' k)
      u h

pub run_download-IsDownloaded :
    (e : Surroundings) (local : String)
    → Ensures (λ w. w.item.direction ≡ download) (run_download e local) (IsDownloaded e)
unfolding run_download
run_download-IsDownloaded e local = record {
  at = λ w d u h.
      at_end (IsDownloaded e) (resolve_duplicate w.files local w.item.duplicate_policy)
        (download_as e) w (λ final s u' k. download_as-IsDownloaded e final w d u' k) u h;
}
