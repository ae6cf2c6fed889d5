-- ===== src/Summary/Scored.antt =====
-- What the loop over the events leaves of one metric: internal/summary/summary.go has.
use orchestrator_cli.Common.{
  String, false, Option, some, List, [], ◌∷◌, ◌++◌, ◌==◌, ◌≡◌, refl, sym, ◌∙◌, ap, inl, inr,
  Bool-cases, eq_iff, arith, if◌then◌else◌,
}
use orchestrator_cli.Common.Int.{ℤ}
use orchestrator_cli.Common.Float.{Float64}
use orchestrator_cli.Redact.Uris.{UriTools}
use orchestrator_cli.Redact.Records.{LoggedEvent}
use orchestrator_cli.Summary.{
  find_metric, set_metric, Scores, is_better_metric_value, score_metric, score_metrics, score_event,
  score_events,
}

-- the values of a metric, in the order of the events
abbrev values_of : {F : Type 0} → String → List (String × F) → List F
values_of name [] = []
values_of name ((k, v) ∷ more) = if k == name then v ∷ values_of name more else values_of name more

abbrev event_values : {F : Type 0} → String → LoggedEvent F → List F
event_values name ev = if ev.event_type == "metric" then values_of name ev.metrics else []

abbrev pub readings : {F : Type 0} → String → List (LoggedEvent F) → List F
readings name [] = []
readings name (ev ∷ more) = event_values name ev ++ readings name more

abbrev pub last_of : {F : Type 0} → Option F → List F → Option F
last_of old [] = old
last_of old (v ∷ vs) = last_of (some v) vs

find-set_metric :
    {F : Type 0} (name k : String) (x : F) (m : List (String × F))
    → find_metric name (set_metric k x m) ≡ (if k == name then some x else find_metric name m)
unfolding find_metric set_metric
find-set_metric name k x [] = refl
find-set_metric name k x ((j, v) ∷ more) = elim (Bool-cases (j == k)) [
  | inl e ↦
      rw (e, (eq_iff j k).0 e)
        (elim (Bool-cases (k == name)) [ inl h ↦ rw h refl | inr h ↦ rw h refl ])
  | inr e ↦
      rw (e, find-set_metric name k x more)
        (elim (Bool-cases (j == name)) [
          | inl h ↦
              let off : (k == name) ≡ false =
                ground (arith, eq_iff j k, eq_iff j name, eq_iff k name) in
              rw (h, off) refl
          | inr h ↦ rw h refl
        ])
]

module _ {F : Type 0} ⦃f : Float64 F⦄ (t : UriTools) (name : String) where
  -- the best value of a sequence, from an earlier best one
  abbrev pick : F → Option F → Option F
  pick v old = if is_better_metric_value t name v old then some v else old

  abbrev pub best_of : Option F → List F → Option F
  best_of old [] = old
  best_of old (v ∷ vs) = best_of (pick v old) vs

  score_metric-best :
      (step : Option ℤ) (k : String) (v : F) (s : Scores F)
      → find_metric name (score_metric t step k v s).best
        ≡ (if k == name then pick v (find_metric name s.best) else find_metric name s.best)
  unfolding score_metric
  score_metric-best step k v s =
      elim (Bool-cases (is_better_metric_value t k v (find_metric k s.best))) [
        | inl e ↦
            rw (e, find-set_metric name k v s.best)
              (elim (Bool-cases (k == name)) [
                | inl h ↦
                    let same =
                      ap (λ x. is_better_metric_value t x v (find_metric x s.best))
                        ((eq_iff k name).0 h) in
                    rw (h, sym same ∙ e) refl
                | inr h ↦ rw h refl
              ])
        | inr e ↦ rw e (elim (Bool-cases (k == name)) [
          | inl h ↦
              let same =
                ap (λ x. is_better_metric_value t x v (find_metric x s.best))
                  ((eq_iff k name).0 h) in
              rw (h, sym same ∙ e) refl
          | inr h ↦ rw h refl
        ])
      ]

  score_metric-final :
      (step : Option ℤ) (k : String) (v : F) (s : Scores F)
      → find_metric name (score_metric t step k v s).final
        ≡ (if k == name then some v else find_metric name s.final)
  unfolding score_metric
  score_metric-final step k v s =
      elim (Bool-cases (is_better_metric_value t k v (find_metric k s.best))) [
        | inl e ↦ rw e (find-set_metric name k v s.final)
        | inr e ↦ rw e (find-set_metric name k v s.final)
      ]

  best_of-append :
      (old : Option F) (vs ws : List F) → best_of old (vs ++ ws) ≡ best_of (best_of old vs) ws
  best_of-append old [] ws = refl
  best_of-append old (v ∷ vs) ws = best_of-append (pick v old) vs ws

  last_of-append :
      (old : Option F) (vs ws : List F) → last_of old (vs ++ ws) ≡ last_of (last_of old vs) ws
  last_of-append old [] ws = refl
  last_of-append old (v ∷ vs) ws = last_of-append (some v) vs ws

  score_metrics_lem :
      (step : Option ℤ) (ms : List (String × F)) (s : Scores F)
      → (find_metric name (score_metrics t step ms s).best
          ≡ best_of (find_metric name s.best) (values_of name ms))
        × (find_metric name (score_metrics t step ms s).final
            ≡ last_of (find_metric name s.final) (values_of name ms))
  unfolding score_metrics
  score_metrics_lem step [] s = (refl, refl)
  score_metrics_lem step ((k, v) ∷ more) s =
      let (b, l) = score_metrics_lem step more (score_metric t step k v s) in
      elim (Bool-cases (k == name)) [
        | inl h ↦
            rw (b, l, score_metric-best step k v s, score_metric-final step k v s, h) (refl, refl)
        | inr h ↦
            rw (b, l, score_metric-best step k v s, score_metric-final step k v s, h) (refl, refl)
      ]

  score_event_lem :
      (ev : LoggedEvent F) (s : Scores F)
      → (find_metric name (score_event t ev s).best
          ≡ best_of (find_metric name s.best) (event_values name ev))
        × (find_metric name (score_event t ev s).final
            ≡ last_of (find_metric name s.final) (event_values name ev))
  unfolding score_event
  score_event_lem ev s = elim (Bool-cases (ev.event_type == "metric")) [
    | inl h ↦ rw h (score_metrics_lem ev.step ev.metrics s)
    | inr h ↦ elim (Bool-cases (ev.event_type == "checkpoint")) [
      | inl k ↦ rw (h, k) (refl, refl)
      | inr k ↦ rw (h, k) (refl, refl)
    ]
  ]

  pub score_events_lem :
      (events : List (LoggedEvent F)) (s : Scores F)
      → (find_metric name (score_events t events s).best
          ≡ best_of (find_metric name s.best) (readings name events))
        × (find_metric name (score_events t events s).final
            ≡ last_of (find_metric name s.final) (readings name events))
  unfolding score_events
  score_events_lem [] s = (refl, refl)
  score_events_lem (ev ∷ more) s =
      let (b, l) = score_events_lem more (score_event t ev s) in
      let (c, d) = score_event_lem ev s in
      (
        b
            ∙ ap (λ z. best_of z (readings name more)) c
            ∙ sym (best_of-append _ (event_values name ev) _),
        l
            ∙ ap (λ z. last_of z (readings name more)) d
            ∙ sym (last_of-append _ (event_values name ev) _),
      )
