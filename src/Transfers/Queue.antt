-- ===== src/Transfers/Queue.antt =====
-- The table of transfers in droid_web_display/transfers/manager.py: what queues, ends and restores
-- them.
use droid_web_display.Common.{
  ℕ, String, Bool, not, Option, none, some, List, [], ◌∷◌, count, keep, leb, str_eq, if◌then◌else◌,
  Result, ok, err, return, lift, writes, ◌>>=◌, ◌>>◌,
}
use droid_web_display.Common.Table.{find, put}
use droid_web_display.Common.Sort.{sort}
use droid_web_display.Transfers.Types.{
  TransferRecord, TransferDirection, upload, queued, DuplicatePolicy, Fault, not_found, os_error,
  conflict, plain, no_speed, add_event, is_final, Manager, Action,
}
use droid_web_display.Transfers.Filenames.{sanitize_filename, join_android_path}

abbrev pub id_of : TransferRecord → String
id_of r = r.transfer_id

-- `list_records`: the newest first
unfoldable pub list_records : Manager → List TransferRecord
list_records m = sort (λ a b. leb b.created_at a.created_at) m.records

-- `_persist`
unfoldable pub persist_all : Bool → Action (Unit {0})
persist_all writable m =
    if writable then (ok tt, record m { disk = some (list_records m) }) else (err os_error, m)

abbrev pub found : Option TransferRecord → Result Fault TransferRecord
found none = err not_found
found (some r) = ok r

unfoldable pub get : String → Action TransferRecord
get id m = (found (find id_of id m.records), m)

abbrev pub is_pending : TransferRecord → Bool
is_pending r = not (is_final r.state)

unfoldable pub check_queue_capacity : Action (Unit {0})
check_queue_capacity m =
    if leb m.maximum_queue_length (count is_pending m.records)
    then (err (conflict "transfer queue is full"), m)
    else (ok tt, m)

abbrev pub drop_task : String → List String → List String
drop_task id = keep (λ t. not (str_eq t id))

-- The id's entry of `_tasks`.
unfoldable pub schedule : String → Action (Unit {0})
schedule id = writes (λ m. record m { tasks = id ∷ drop_task id m.tasks })

unfoldable pub register_and_run : Bool → TransferRecord → Action (Unit {0})
register_and_run writable r = do
  writes (λ m. record m { records = put id_of r m.records })
  persist_all writable
  schedule r.transfer_id

abbrev pub new_record : ℕ → String → TransferDirection → String → DuplicatePolicy → TransferRecord
new_record now id direction serial policy = record {
  transfer_id = id;
  direction = direction;
  serial = serial;
  source_path = "";
  destination_path = "";
  filename = "";
  state = queued;
  size = none;
  bytes_transferred = 0;
  speed = no_speed;
  created_at = now;
  started_at = none;
  ended_at = none;
  retry_count = 0;
  error = none;
  verification = none;
  duplicate_policy = policy;
  destination_profile = none;
  internal_local_path = none;
  history = [];
}

-- With the id that `secrets.token_urlsafe` draws.
unfoldable pub enqueue_upload :
    ℕ
    → Bool
    → String
    → String
    → String
    → String
    → ℕ
    → String
    → DuplicatePolicy
    → Action TransferRecord
enqueue_upload now writable id serial spool original size directory policy = do
  check_queue_capacity
  destination ← lift (join_android_path directory original)
  let r = add_event now "queued" plain (record (new_record now id upload serial policy) {
    source_path = original;
    destination_path = destination;
    filename = sanitize_filename original;
    size = some size;
    internal_local_path = some spool;
  })
  register_and_run writable r
  return r
