-- ===== src/Events/Kept.antt =====
-- What ParseLine of internal/event/ingestor.go keeps of a line.
use orchestrator_cli.Common.{
  ℕ, String, true, false, Option, none, some, ◌==◌, ◌≡◌, ◌≢◌, refl, sym, ◌∙◌, ◌⊎◌, inl, inr,
  Bool-cases, eq_iff,
}
use orchestrator_cli.Redact.Values.{Fields}
use orchestrator_cli.Events.{
  ParsedLine, EventTools, find_field, as_text, non_empty_or, string_value, type_value,
  is_event_type, parsed_as, parse_line,
}

non_empty_or_lem :
    (fallback : String) (o : Option String) → fallback ≢ "" → non_empty_or fallback o ≢ ""
non_empty_or_lem fallback none h = h
non_empty_or_lem fallback (some s) h = elim (Bool-cases (s == "")) [
  | inl e ↦ rw e h
  | inr e ↦ rw e (λ q. absurd (cc (sym e ∙ (eq_iff s "").1 q)))
]

module _ {F : Type 0} (t : EventTools F) (line run_id attempt_id : String) (now : ℕ) where
  -- the line is the message of a log event, or the fields of a structured one
  abbrev pub Keeps : ParsedLine F → Type 0
  Keeps p =
      ((p.structured ≡ false) × (p.event.event_type ≡ "log") × (p.event.message ≡ line))
      ⊎ ((p.structured ≡ true)
          × ((raw : Fields F) × (t.decode line ≡ some raw)
              × (p.event.fields ≡ some raw)
              × (p.event.event_type ≡ type_value raw))
          × (is_event_type p.event.event_type ≡ true))

  abbrev pub IsNamed : ParsedLine F → Type 0
  IsNamed p = (p.event.run_id ≢ "") × (p.event.attempt_id ≢ "")

  parsed_as-Keeps :
      (o : Option (Fields F))
      → t.decode line ≡ o
      → run_id ≢ ""
      → attempt_id ≢ ""
      → Keeps (parsed_as t line run_id attempt_id now o)
        × IsNamed (parsed_as t line run_id attempt_id now o)
  unfolding string_value
  parsed_as-Keeps none e h k = (inl (refl, refl, refl), (h, k))
  parsed_as-Keeps (some raw) e h k = elim (Bool-cases (is_event_type (type_value raw))) [
    | inl y ↦ rw y (
      inr (refl, (raw, e, refl, refl), y),
      (
        non_empty_or_lem run_id (as_text (find_field "run_id" raw)) h,
        non_empty_or_lem attempt_id (as_text (find_field "attempt_id" raw)) k,
      ),
    )
    | inr n ↦ rw n (inl (refl, refl, refl), (h, k))
  ]

  -- For a run and an attempt with an id, the event of a line has both ids, and the line is kept: as the
  -- message of a log event, or as the fields of a metric, checkpoint or status event whose type they
  -- hold.
  pub parse_line-Keeps :
      run_id ≢ ""
      → attempt_id ≢ ""
      → Keeps (parse_line t line run_id attempt_id now)
        × IsNamed (parse_line t line run_id attempt_id now)
  unfolding parse_line
  parse_line-Keeps h k = parsed_as-Keeps (t.decode line) refl h k
