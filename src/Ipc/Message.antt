-- ===== src/Ipc/Message.antt =====
-- include/contextsnap/ipc/protocol.hpp and src/ipc/protocol.cpp: methods, events, and the JSON form
-- of requests, responses and events.
pub mod Wire
use contextsnap.Base.{
  Bool, Bytes, List, Option, [], bytes_eq, codes, false, if◌then◌else◌, none, not, some, true, ℕ,
  ◌++◌, ◌∷◌,
}
use contextsnap.Base.Int.{int64_of_uint64, ltb_ℤ, pos, uint64_of_int64}
use contextsnap.Errors.{Error, ErrorCode, Result, code_string, error, error_string, protocol, value}
use contextsnap.Errors.Codes.{all_codes, code_from}
use contextsnap.Json.{
  DoubleText, Members, Value, as_bool, as_int, as_string, bool, find, int, is_object, member,
  no_members, null, object, string,
}

abbrev pub protocol_version : ℕ
protocol_version = 1

pub data Method : Type 0 where
  unknown hello ping capture_snapshot list_snapshots get_snapshot delete_snapshot : Method
  rename_snapshot tag_snapshot favorite_snapshot plan_restore restore_snapshot : Method
  search_snapshots export_snapshot import_snapshot get_config set_config get_health : Method
  prune_snapshots subscribe shutdown : Method

-- `kMethodNames`, in its order.
abbrev pub all_methods : List Method
all_methods =
    unknown ∷ hello ∷ ping ∷ capture_snapshot ∷ list_snapshots ∷ get_snapshot ∷ delete_snapshot
    ∷ rename_snapshot ∷ tag_snapshot ∷ favorite_snapshot ∷ plan_restore ∷ restore_snapshot
    ∷ search_snapshots ∷ export_snapshot ∷ import_snapshot ∷ get_config ∷ set_config ∷ get_health
    ∷ prune_snapshots ∷ subscribe ∷ shutdown ∷ []

unfoldable pub method_string : Method → Bytes
method_string unknown = codes "unknown"
method_string hello = codes "hello"
method_string ping = codes "ping"
method_string capture_snapshot = codes "capture_snapshot"
method_string list_snapshots = codes "list_snapshots"
method_string get_snapshot = codes "get_snapshot"
method_string delete_snapshot = codes "delete_snapshot"
method_string rename_snapshot = codes "rename_snapshot"
method_string tag_snapshot = codes "tag_snapshot"
method_string favorite_snapshot = codes "favorite_snapshot"
method_string plan_restore = codes "plan_restore"
method_string restore_snapshot = codes "restore_snapshot"
method_string search_snapshots = codes "search_snapshots"
method_string export_snapshot = codes "export_snapshot"
method_string import_snapshot = codes "import_snapshot"
method_string get_config = codes "get_config"
method_string set_config = codes "set_config"
method_string get_health = codes "get_health"
method_string prune_snapshots = codes "prune_snapshots"
method_string subscribe = codes "subscribe"
method_string shutdown = codes "shutdown"

unfoldable pub method_from : List Method → Bytes → Method
method_from [] text = unknown
method_from (m ∷ ms) text = if bytes_eq (method_string m) text then m else method_from ms text

unfoldable pub method_from_string : Bytes → Method
unfolding method_from method_string
method_from_string text = method_from all_methods text

pub data EventType : Type 0 where
  snapshot_created snapshot_deleted snapshot_updated restore_started : EventType
  restore_progress restore_finished browser_connected browser_disconnected : EventType
  config_changed daemon_shutting_down : EventType

abbrev pub all_events : List EventType
all_events =
    snapshot_created ∷ snapshot_deleted ∷ snapshot_updated ∷ restore_started ∷ restore_progress
    ∷ restore_finished ∷ browser_connected ∷ browser_disconnected ∷ config_changed
    ∷ daemon_shutting_down ∷ []

unfoldable pub event_string : EventType → Bytes
event_string snapshot_created = codes "snapshot_created"
event_string snapshot_deleted = codes "snapshot_deleted"
event_string snapshot_updated = codes "snapshot_updated"
event_string restore_started = codes "restore_started"
event_string restore_progress = codes "restore_progress"
event_string restore_finished = codes "restore_finished"
event_string browser_connected = codes "browser_connected"
event_string browser_disconnected = codes "browser_disconnected"
event_string config_changed = codes "config_changed"
event_string daemon_shutting_down = codes "daemon_shutting_down"

-- The search loop of `Event::from_json`; `snapshot_created` is the default of the field.
unfoldable pub event_from : List EventType → Bytes → EventType
event_from [] text = snapshot_created
event_from (t ∷ ts) text = if bytes_eq (event_string t) text then t else event_from ts text

unfoldable pub event_from_string : Bytes → EventType
unfolding event_from event_string
event_from_string text = event_from all_events text

pub record Request : Type 0 where
  pub id : ℕ
  pub method : Method
  pub params : Value

pub record Response : Type 0 where
  pub id : ℕ
  pub ok : Bool
  pub result : Value
  pub error_code : ErrorCode
  pub error_message : Bytes

pub record Event : Type 0 where
  pub event_type : EventType
  pub payload : Value

abbrev version_member : Members → Members
version_member ms = member (codes "v") (int (pos protocol_version)) ms

unfoldable pub request_json : Request → Value
request_json r = object (
    version_member (
      member (codes "id") (int (int64_of_uint64 r.id)) (
        member (codes "method") (string (method_string r.method))
          (member (codes "params") r.params no_members))))

unfoldable pub success : ℕ → Value → Response
success id result = record {
  id = id;
  ok = true;
  result = result;
  error_code = ErrorCode.ok;
  error_message = [];
}

unfoldable pub failure : ℕ → Error → Response
failure id e = record {
  id = id;
  ok = false;
  result = null;
  error_code = e.code;
  error_message = error_string e;
}

-- What a response says behind its id and its `ok`.
abbrev outcome_member : Response → Members
outcome_member r =
    if r.ok
    then member (codes "result") r.result no_members
    else member (codes "error")
        (object (
          member (codes "code") (string (code_string r.error_code))
            (member (codes "message") (string r.error_message) no_members)))
        no_members

unfoldable pub response_json : Response → Value
response_json r = object (
    version_member (
      member (codes "id") (int (int64_of_uint64 r.id))
        (member (codes "ok") (bool r.ok) (outcome_member r))))

unfoldable pub event_json : Event → Value
event_json e = object (
    version_member (
      member (codes "event") (string (event_string e.event_type))
        (member (codes "payload") e.payload no_members)))

abbrev pub or_default {ℓ κ} : {A : Type ℓ} {B : Type κ} → Option A → B → (A → B) → B
or_default none d f = d
or_default (some a) d f = f a

abbrev wrong_request : Bytes → Result Request
wrong_request message = error (protocol message (codes "ipc.request"))

module _ (fp : DoubleText) where
  -- `request.id`, and `response.id`, with the default of the field.
  unfoldable pub id_of : Value → ℕ
  unfolding find as_int
  id_of v = or_default (find v (codes "id")) 0 λ id. uint64_of_int64 (as_int fp id (pos 0))

  abbrev newer : Value → Bool
  newer v =
      or_default (find v (codes "v")) false
        λ version. ltb_ℤ (pos protocol_version) (as_int fp version (pos 1))

  unfoldable pub known_request : Value → Bytes → Method → Result Request
  known_request v name unknown = wrong_request (codes "unknown method: " ++ name)
  known_request v name method = value (record {
    id = id_of v;
    method = method;
    params = or_default (find v (codes "params")) null λ params. params;
  })

  abbrev method_request : Value → Option Value → Result Request
  method_request v (some (string name)) = known_request v name (method_from_string name)
  method_request v _ = wrong_request (codes "request is missing a method")

  -- `Request::from_json`.
  unfoldable pub request_from_json : Value → Result Request
  unfolding is_object find as_int
  request_from_json v =
      if not (is_object v)
      then wrong_request (codes "request must be a JSON object")
      else if newer v
      then wrong_request (codes "client protocol version is newer than the daemon's")
      else method_request v (find v (codes "method"))

  abbrev error_fields : ℕ → Value → Response
  error_fields id e = record {
    id = id;
    ok = false;
    result = null;
    error_code =
        or_default (find e (codes "code")) ErrorCode.ok λ c. code_from all_codes (as_string c []);
    error_message = or_default (find e (codes "message")) [] λ m. as_string m [];
  }

  abbrev no_error_fields : ℕ → Response
  no_error_fields id = record {
    id = id;
    ok = false;
    result = null;
    error_code = ErrorCode.ok;
    error_message = [];
  }

  -- `Response::from_json`.
  unfoldable pub response_from_json : Value → Result Response
  unfolding is_object find as_bool as_string success
  response_from_json v =
      if not (is_object v)
      then error (protocol (codes "response must be a JSON object") (codes "ipc.response"))
      else if or_default (find v (codes "ok")) false (λ b. as_bool b false)
      then value (success (id_of v) (or_default (find v (codes "result")) null λ result. result))
      else value
          (or_default (find v (codes "error")) (no_error_fields (id_of v)) (error_fields (id_of v)))

abbrev named_event : Value → Option Value → Result Event
named_event v (some (string name)) = value (record {
  event_type = event_from_string name;
  payload = or_default (find v (codes "payload")) null λ payload. payload;
})
named_event v _ = error (protocol (codes "event is missing a type") (codes "ipc.event"))

-- `Event::from_json`.
unfoldable pub event_from_json : Value → Result Event
unfolding find
event_from_json v = named_event v (find v (codes "event"))
