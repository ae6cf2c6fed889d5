-- ===== src/Redact/Records.antt =====
-- Events, runs, attempts and lines of internal/redact/redact.go.
use orchestrator_cli.Common.{ℕ, String, Option, none, some, List, if◌then◌else◌}
use orchestrator_cli.Common.Int.{ℤ}
use orchestrator_cli.App.Runs.{Run, Attempt}
use orchestrator_cli.Redact.Values.{Value, Items, Fields}
use orchestrator_cli.Redact.Uris.{UriTools, sanitize_uri, sanitize_uri_references}
use orchestrator_cli.Redact.Keys.{is_uri_key}
use orchestrator_cli.Redact.Redactor.{hide, redact_string, redact_uri, redact_fields}

-- app.Event
pub record LoggedEvent (F : Type 0) : Type 0 where
  pub event_type : String
  pub run_id : String
  pub attempt_id : String
  pub ts : ℕ
  pub step : Option ℤ
  pub epoch : Option ℤ
  pub split : String
  pub state : String
  pub checkpoint_uri : String
  pub message : String
  pub metrics : List (String × F)
  pub fields : Option (Fields F)

abbrev over_fields : {F : Type 0} → (Fields F → Fields F) → Option (Fields F) → Option (Fields F)
over_fields g none = none
over_fields g (some fs) = some (g fs)

module _ (t : UriTools) where
  -- sanitizeURIValue
  unfoldable mutual
    pub sanitize_uri_value : {F : Type 0} → String → Value F → Value F
    sanitize_uri_value key Value.null = hide t.fold key Value.null
    sanitize_uri_value key (Value.boolean b) = hide t.fold key (Value.boolean b)
    sanitize_uri_value key (Value.number x) = hide t.fold key (Value.number x)
    sanitize_uri_value key (Value.integer n) = hide t.fold key (Value.integer n)
    sanitize_uri_value key (Value.text s) = hide t.fold key (
        Value.text
          (if is_uri_key t.fold key then sanitize_uri t s else sanitize_uri_references t s))
    sanitize_uri_value key (Value.texts ss) = hide t.fold key (Value.texts ss)
    sanitize_uri_value key (Value.text_map m) = hide t.fold key (Value.text_map m)
    sanitize_uri_value key (Value.array vs) = hide t.fold key (Value.array (sanitize_uri_items vs))
    sanitize_uri_value key (Value.object fs) =
        hide t.fold key (Value.object (sanitize_uri_fields fs))

    pub sanitize_uri_items : {F : Type 0} → Items F → Items F
    sanitize_uri_items Items.nil = Items.nil
    sanitize_uri_items (Items.cons v more) =
        Items.cons (sanitize_uri_value "" v) (sanitize_uri_items more)

    pub sanitize_uri_fields : {F : Type 0} → Fields F → Fields F
    sanitize_uri_fields Fields.end = Fields.end
    sanitize_uri_fields (Fields.field k v more) =
        Fields.field k (sanitize_uri_value k v) (sanitize_uri_fields more)

  unfoldable pub sanitize_event_uris : {F : Type 0} → LoggedEvent F → LoggedEvent F
  unfolding sanitize_uri_value
  sanitize_event_uris ev = record ev {
    checkpoint_uri = sanitize_uri t ev.checkpoint_uri;
    message = sanitize_uri_references t ev.message;
    fields = over_fields sanitize_uri_fields ev.fields;
  }

  unfoldable pub sanitize_attempt_uris : {F : Type 0} → Attempt F → Attempt F
  sanitize_attempt_uris a = record a {
    resume_from_uri = sanitize_uri t a.resume_from_uri;
    exit_reason = sanitize_uri_references t a.exit_reason;
    provider_ref = sanitize_uri_references t a.provider_ref;
  }

module _ (t : UriTools) (values : List String) where
  unfoldable pub redact_event : {F : Type 0} → LoggedEvent F → LoggedEvent F
  redact_event ev = record ev {
    run_id = redact_string t values ev.run_id;
    attempt_id = redact_string t values ev.attempt_id;
    split = redact_string t values ev.split;
    state = redact_string t values ev.state;
    checkpoint_uri = redact_uri t values ev.checkpoint_uri;
    message = redact_string t values ev.message;
    fields = over_fields (redact_fields t values) ev.fields;
  }

  unfoldable pub redact_run : Run → Run
  redact_run run = record run {
    id = redact_string t values run.id;
    job_name = redact_string t values run.job_name;
    script = redact_string t values run.script;
    image = redact_string t values run.image;
    provider = redact_string t values run.provider;
    error = redact_string t values run.error;
  }

  unfoldable pub redact_attempt : {F : Type 0} → Attempt F → Attempt F
  redact_attempt a = record a {
    id = redact_string t values a.id;
    run_id = redact_string t values a.run_id;
    provider = redact_string t values a.provider;
    exit_reason = redact_string t values a.exit_reason;
    provider_ref = redact_string t values a.provider_ref;
    resume_from_uri = redact_uri t values a.resume_from_uri;
    estimate_currency = redact_string t values a.estimate_currency;
  }

  abbrev encoded_or : String → Option String → String
  encoded_or value none = redact_string t values value
  encoded_or value (some s) = s

  abbrev line_of : {F : Type 0} → (Fields F → Option String) → String → Option (Fields F) → String
  line_of encode value none = redact_string t values value
  line_of encode value (some fs) = encoded_or value (encode (redact_fields t values fs))

  -- Line, with json.Unmarshal into a map and json.Marshal
  unfoldable pub redact_line :
      {F : Type 0} → (String → Option (Fields F)) → (Fields F → Option String) → String → String
  redact_line decode encode value = line_of encode value (decode value)
