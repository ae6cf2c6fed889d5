-- ===== src/Events.antt =====
-- internal/event/ingestor.go: events from the lines of a log, and the file of events.
mod Kept
mod Tests
use Prim.Native.String.{◌++◌ as str_append}
use orchestrator_cli.Common.{
  ℕ, String, Bool, true, false, ◌||◌, Option, none, some, List, [], ◌∷◌, ◌==◌, if◌then◌else◌,
}
use orchestrator_cli.Common.Int.{ℤ}
use orchestrator_cli.Redact.Values.{Value, Items, Fields}
use orchestrator_cli.App.Errors.{Error, Result, ok, err}
use orchestrator_cli.Redact.Uris.{UriTools}
use orchestrator_cli.Redact.Records.{LoggedEvent, sanitize_event_uris}

pub record ParsedLine (F : Type 0) : Type 0 where
  pub event : LoggedEvent F
  pub structured : Bool

-- json.Unmarshal into a map and into an Event, time.Parse, and int64 of a float64
pub record EventTools (F : Type 0) : Type 0 where
  pub decode : String → Option (Fields F)
  pub decode_event : String → Option (LoggedEvent F)
  pub parse_rfc3339 : String → Option ℕ
  pub to_int64 : F → ℤ

unfoldable pub find_field : {F : Type 0} → String → Fields F → Option (Value F)
find_field key Fields.end = none
find_field key (Fields.field k v more) = if k == key then some v else find_field key more

-- `raw[key].(string)`
abbrev pub as_text : {F : Type 0} → Option (Value F) → Option String
as_text (some (Value.text s)) = some s
as_text _ = none

abbrev pub non_empty_or : String → Option String → String
non_empty_or fallback none = fallback
non_empty_or fallback (some s) = if s == "" then fallback else s

unfoldable pub string_value : {F : Type 0} → Fields F → String → String → String
unfolding find_field
string_value raw key fallback = non_empty_or fallback (as_text (find_field key raw))

abbrev type_text : Option String → String
type_text none = ""
type_text (some s) = s

-- `typeValue, _ := raw["type"].(string)`
unfoldable pub type_value : {F : Type 0} → Fields F → String
unfolding find_field
type_value raw = type_text (as_text (find_field "type" raw))

abbrev pub is_event_type : String → Bool
is_event_type s = s == "metric" || s == "checkpoint" || s == "status"

abbrev add_number : {F : Type 0} → String → Value F → List (String × F) → List (String × F)
add_number k (Value.number x) rest = (k, x) ∷ rest
add_number k _ rest = rest

unfoldable pub number_fields : {F : Type 0} → Fields F → List (String × F)
number_fields Fields.end = []
number_fields (Fields.field k v more) = add_number k v (number_fields more)

abbrev numbers_of : {F : Type 0} → Option (Value F) → List (String × F)
numbers_of (some (Value.object fs)) = number_fields fs
numbers_of _ = []

-- a nil map is an empty list
unfoldable pub metrics : {F : Type 0} → Fields F → List (String × F)
unfolding find_field number_fields
metrics raw = numbers_of (find_field "metrics" raw)

abbrev pub log_event : {F : Type 0} → String → String → String → ℕ → LoggedEvent F
log_event line run_id attempt_id now = record {
  event_type = "log";
  run_id = run_id;
  attempt_id = attempt_id;
  ts = now;
  step = none;
  epoch = none;
  split = "";
  state = "";
  checkpoint_uri = "";
  message = line;
  metrics = [];
  fields = none;
}

module _ {F : Type 0} (t : EventTools F) where
  abbrev int_of : Option (Value F) → Option ℤ
  int_of (some (Value.number x)) = some (t.to_int64 x)
  int_of (some (Value.integer n)) = some n
  int_of _ = none

  unfoldable pub int_pointer : Fields F → String → Option ℤ
  unfolding find_field
  int_pointer raw key = int_of (find_field key raw)

  abbrev instant_or : ℕ → Option ℕ → ℕ
  instant_or fallback none = fallback
  instant_or fallback (some n) = n

  abbrev time_or : ℕ → Option String → ℕ
  time_or fallback none = fallback
  time_or fallback (some s) = if s == "" then fallback else instant_or fallback (t.parse_rfc3339 s)

  unfoldable pub parse_time : Fields F → ℕ → ℕ
  unfolding find_field
  parse_time raw fallback = time_or fallback (as_text (find_field "ts" raw))

  abbrev structured_event : Fields F → String → String → ℕ → LoggedEvent F
  structured_event raw run_id attempt_id now = record {
    event_type = type_value raw;
    run_id = string_value raw "run_id" run_id;
    attempt_id = string_value raw "attempt_id" attempt_id;
    ts = parse_time raw now;
    step = int_pointer raw "step";
    epoch = int_pointer raw "epoch";
    split = string_value raw "split" "";
    state = string_value raw "state" "";
    checkpoint_uri = string_value raw "checkpoint_uri" "";
    message = "";
    metrics = metrics raw;
    fields = some raw;
  }

  abbrev pub parsed_as : String → String → String → ℕ → Option (Fields F) → ParsedLine F
  parsed_as line run_id attempt_id now none = record {
    event = log_event line run_id attempt_id now;
    structured = false;
  }
  parsed_as line run_id attempt_id now (some raw) =
      if is_event_type (type_value raw)
      then record { event = structured_event raw run_id attempt_id now; structured = true }
      else record { event = log_event line run_id attempt_id now; structured = false }

  unfoldable pub parse_line : String → String → String → ℕ → ParsedLine F
  parse_line line run_id attempt_id now = parsed_as line run_id attempt_id now (t.decode line)

  abbrev with_event : Option (LoggedEvent F) → List (LoggedEvent F) → List (LoggedEvent F)
  with_event none rest = rest
  with_event (some ev) rest = ev ∷ rest

  -- the loop of ReadJSONL over the lines of the scanner
  unfoldable pub read_jsonl : List String → List (LoggedEvent F)
  read_jsonl [] = []
  read_jsonl (line ∷ more) = with_event (t.decode_event line) (read_jsonl more)

abbrev written : (String → Option Error) → Result String → Option Error
written write (err e) = some e
written write (ok encoded) = write (str_append encoded "\n")

-- WriteJSONL, with json.Marshal and the write to the file
unfoldable pub write_jsonl :
    {F : Type 0}
    → UriTools
    → (LoggedEvent F → Result String)
    → (String → Option Error)
    → LoggedEvent F
    → Option Error
write_jsonl t marshal write ev = written write (marshal (sanitize_event_uris t ev))
