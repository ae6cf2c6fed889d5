-- ===== src/Summary/Best.antt =====
-- Which metrics a summary of internal/summary/summary.go has.
use mathlib.Core.List.{Memᴰ}
use orchestrator_cli.Common.{
  ℕ, String, true, false, Option, none, some, List, [], ◌∷◌, ◌≡◌, refl, ◌∙◌, inl, inr, All,
  Bool-cases,
}
use orchestrator_cli.Common.Float.{Float64, IsNumber, IsOrdered}
use orchestrator_cli.App.Decision.{RoutingDecision}
use orchestrator_cli.App.Runs.{Run, Attempt}
use orchestrator_cli.Redact.Uris.{UriTools}
use orchestrator_cli.Redact.Records.{LoggedEvent}
use orchestrator_cli.Summary.{
  lower_is_better, find_metric, is_better_metric_value, no_scores, build,
}
use orchestrator_cli.Summary.Scored.{readings, last_of, best_of, score_events_lem}

module _ {F : Type 0} ⦃f : Float64 F⦄ (t : UriTools) (name : String) where
  -- no value is better than this one
  abbrev IsBest : F → List F → Type 0
  IsBest x vs = Memᴰ x vs × All (λ v. is_better_metric_value t name v (some x) ≡ false) vs

  module _ (o : IsOrdered F) where
    not_better_trans :
        (u v x : F)
        → IsNumber u
        → IsNumber v
        → IsNumber x
        → is_better_metric_value t name u (some v) ≡ false
        → is_better_metric_value t name v (some x) ≡ false
        → is_better_metric_value t name u (some x) ≡ false
    unfolding is_better_metric_value
    not_better_trans u v x p q r h k = elim (Bool-cases (lower_is_better t.fold name)) [
      | inl e ↦ rw e (o.le_trans x v u r q p (rw e at k) (rw e at h))
      | inr e ↦ rw e (o.le_trans u v x p q r (rw e at h) (rw e at k))
    ]

    not_better_asym :
        (u v : F)
        → IsNumber u
        → IsNumber v
        → is_better_metric_value t name u (some v) ≡ true
        → is_better_metric_value t name v (some u) ≡ false
    unfolding is_better_metric_value
    not_better_asym u v p q h = elim (Bool-cases (lower_is_better t.fold name)) [
      | inl e ↦ rw e (o.lt_asym u v p q (rw e at h))
      | inr e ↦ rw e (o.lt_asym v u q p (rw e at h))
    ]

    not_better_self : (u : F) → IsNumber u → is_better_metric_value t name u (some u) ≡ false
    not_better_self u p = elim (Bool-cases (is_better_metric_value t name u (some u))) [
      | inr e ↦ e
      | inl e ↦ not_better_asym u u p p e
    ]

    best_of-IsBest :
        (x : F) (vs : List F)
        → IsNumber x
        → All IsNumber vs
        → (b : F) × (best_of t name (some x) vs ≡ some b) × IsBest b (x ∷ vs) × IsNumber b
    best_of-IsBest x [] p n = (x, refl, (Memᴰ.head refl, (not_better_self x p, tt)), p)
    best_of-IsBest x (v ∷ vs) p (q, n) =
        elim (Bool-cases (is_better_metric_value t name v (some x))) [
          | inl e ↦
              let (b, r, (m, (g, gs)), k) = best_of-IsBest v vs q n in
              let off = not_better_trans x v b p q k (not_better_asym v x q p e) g in
              rw e (b, r, (Memᴰ.tail m, (off, (g, gs))), k)
          | inr e ↦
              let (b, r, (m, (g, gs)), k) = best_of-IsBest x vs p n in
              let off = not_better_trans v x b q p k e g in rw e (b, r, (skip m, (g, (off, gs))), k)
        ]
      where
        skip : {b : F} → Memᴰ b (x ∷ vs) → Memᴰ b (x ∷ v ∷ vs)
        skip (Memᴰ.head same) = Memᴰ.head same
        skip (Memᴰ.tail m) = Memᴰ.tail (Memᴰ.tail m)

  -- what a summary says of a metric with these values
  abbrev pub Tells : Option F → Option F → List F → Type 0
  Tells best final [] = (best ≡ none) × (final ≡ none)
  Tells best final (v ∷ vs) =
      ((b : F) × (best ≡ some b) × IsBest b (v ∷ vs)) × (final ≡ last_of (some v) vs)

module _ {F : Type 0} ⦃f : Float64 F⦄ (t : UriTools) where
  -- Where no value of a metric in the events is NaN, the summary has no best and no final value of a
  -- metric without values, and else its last value and one of its values that no other one is better
  -- than.
  pub build-Tells :
      (o : IsOrdered F) (seconds : ℕ → ℕ → F) (run : Run) (attempts : List (Attempt F))
      (events : List (LoggedEvent F)) (decision : Option (RoutingDecision F)) (name : String)
      → All IsNumber (readings name events)
      → Tells t name
          (find_metric name (build t seconds run attempts events decision).best_metrics)
          (find_metric name (build t seconds run attempts events decision).final_metrics)
          (readings name events)
  unfolding build is_better_metric_value find_metric
  build-Tells o seconds run attempts events decision name h =
      let (b, l) = score_events_lem t name events no_scores in go (readings name events) h b l
    where
      go :
          {best final : Option F} (vs : List F)
          → All IsNumber vs
          → best ≡ best_of t name none vs
          → final ≡ last_of none vs
          → Tells t name best final vs
      go [] h b l = (b, l)
      go (v ∷ vs) (p, n) b l =
          let (x, r, good, _) = best_of-IsBest t name o v vs p n in ((x, b ∙ r, good), l)
