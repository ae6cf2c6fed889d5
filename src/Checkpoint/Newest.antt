-- ===== src/Checkpoint/Newest.antt =====
-- That Latest of internal/checkpoint/resolver.go returns a checkpoint with the highest step.
use mathlib.Core.List.{Memᴰ}
use mathlib.Core.Path.{subst}
use mathlib.Core.Option.{some-injective}
use orchestrator_cli.Common.{
  String, Bool, true, false, not, ◌&&◌, ◌||◌, ◌≡◌, refl, sym, ◌∙◌, ◌==◌, ◌⊎◌, inl, inr, Option,
  none, some, List, [], ◌∷◌, arith, if◌then◌else◌, All, Bool-cases,
}
use orchestrator_cli.Common.Int.{ℤ, ltb_ℤ}
use orchestrator_cli.App.{CheckpointRef}
use orchestrator_cli.Checkpoint.{
  Event, is_checkpoint, step_or_zero, replaces, next_latest, latest_from, latest,
}

-- an event of a checkpoint that has a URI
abbrev pub offers : Event → Bool
offers e = is_checkpoint e.event_type && not (e.checkpoint_uri == "")

-- an event that offers a checkpoint has no higher step
abbrev pub NotAfter : ℤ → Event → Type 0
NotAfter step e = offers e ≡ true → ltb_ℤ step (step_or_zero e.step) ≡ false

module _ (sanitize : String → String) where
  abbrev pub offered : Event → CheckpointRef
  offered e = record { uri = sanitize e.checkpoint_uri; step = step_or_zero e.step }

  next_latest-cases :
      (l : Option CheckpointRef) (e : Event)
      → ((next_latest sanitize l e ≡ l) × (offers e ≡ false))
        ⊎ (((r : CheckpointRef) × (l ≡ some r)
              × (next_latest sanitize l e ≡ l)
              × (ltb_ℤ (step_or_zero e.step) r.step ≡ true))
            ⊎ ((next_latest sanitize l e ≡ some (offered e))
                × (offers e ≡ true)
                × (replaces (step_or_zero e.step) l ≡ true)))
  unfolding next_latest
  next_latest-cases l e =
      elim (Bool-cases (not (is_checkpoint e.event_type) || e.checkpoint_uri == "")) [
        | inl k ↦ rw k (inl (refl, ground arith))
        | inr k ↦ rw k (inr (rest l (ground arith)))
      ]
    where
      rest :
          (l : Option CheckpointRef)
          → offers e ≡ true
          → ((r : CheckpointRef) × (l ≡ some r)
              × ((if replaces (step_or_zero e.step) l then some (offered e) else l) ≡ l)
              × (ltb_ℤ (step_or_zero e.step) r.step ≡ true))
            ⊎ (((if replaces (step_or_zero e.step) l then some (offered e) else l)
                  ≡ some (offered e))
                × (offers e ≡ true)
                × (replaces (step_or_zero e.step) l ≡ true))
      rest none o = inr (refl, o, refl)
      rest (some r) o = elim (Bool-cases (ltb_ℤ (step_or_zero e.step) r.step)) [
        | inl k ↦ rw k (inl (r, refl, refl, k))
        | inr k ↦ rw k (inr (refl, o, refl))
      ]

  -- `r` comes from the checkpoint found before or from an event, and nothing is after it
  record IsNewest (l : Option CheckpointRef) (es : List Event) (r : CheckpointRef) : Type 0 where
    origin : (l ≡ some r) ⊎ ((e : Event) × Memᴰ e es × (offers e ≡ true) × (r ≡ offered e))
    before : (a : CheckpointRef) → l ≡ some a → ltb_ℤ r.step a.step ≡ false
    newest : All (NotAfter r.step) es

  skip_event :
      (l : Option CheckpointRef) (e : Event) (es : List Event) (r : CheckpointRef)
      → NotAfter r.step e
      → IsNewest l es r
      → IsNewest l (e ∷ es) r
  skip_event l e es r h n = record {
    origin = elim n.origin [ inl k ↦ inl k | inr (x, m, o, k) ↦ inr (x, Memᴰ.tail m, o, k) ];
    before = n.before;
    newest = (h, n.newest);
  }

  replace_by :
      (l : Option CheckpointRef) (e : Event) (es : List Event) (r : CheckpointRef)
      → offers e ≡ true
      → replaces (step_or_zero e.step) l ≡ true
      → IsNewest (some (offered e)) es r
      → IsNewest l (e ∷ es) r
  replace_by l e es r o h n = record {
    origin = elim n.origin [
      | inl k ↦ inr (e, Memᴰ.head refl, o, cc k)
      | inr (x, m, p, k) ↦ inr (x, Memᴰ.tail m, p, k)
    ];
    before = λ a k.
        let below = n.before (offered e) refl in
        let above : ltb_ℤ (step_or_zero e.step) a.step ≡ false = ground (arith, rw k at h) in
        ground arith;
    newest = (λ p. n.before (offered e) refl, n.newest);
  }

  latest_from-IsNewest :
      (l : Option CheckpointRef) (es : List Event) (r : CheckpointRef)
      → latest_from sanitize l es ≡ some r
      → IsNewest l es r
  unfolding latest_from
  latest_from-IsNewest l [] r h = record {
    origin = inl h;
    before = λ a k. let e : a ≡ r = some-injective a r (sym k ∙ h) in rw e (ground arith);
    newest = tt;
  }
  latest_from-IsNewest l (e ∷ es) r h =
      let n = latest_from-IsNewest (next_latest sanitize l e) es r h in
      elim (next_latest-cases l e) [
        | inl (same, none_offered) ↦
            skip_event l e es r (λ o. absurd (cc (o, none_offered))) (rw same at n)
        | inr (inl (a, found, same, low)) ↦
            let m : IsNewest l es r = rw same at n in
            skip_event l e es r (λ o. let b = m.before a found in ground arith) m
        | inr (inr (new, o, h)) ↦ replace_by l e es r o h (rw new at n)
      ]

  -- What Latest returns is made of a checkpoint event with a URI, and no such event of the run has a
  -- higher step; an event without a step counts as step 0.
  pub latest-newest :
      (es : List Event) (r : CheckpointRef)
      → latest sanitize es ≡ some r
      → ((e : Event) × Memᴰ e es × (offers e ≡ true) × (r ≡ offered e)) × All (NotAfter r.step) es
  unfolding latest
  latest-newest es r h =
      let n = latest_from-IsNewest none es r h in
      (elim n.origin [ inl k ↦ absurd (cc k) | inr x ↦ x ], n.newest)

  kept_some :
      (l : Option CheckpointRef) (e : Event)
      → (a : CheckpointRef) × (l ≡ some a)
      → (b : CheckpointRef) × (next_latest sanitize l e ≡ some b)
  kept_some l e (a, k) = elim (next_latest-cases l e) [
    | inl (same, o) ↦ (a, same ∙ k)
    | inr (inl (x, found, same, low)) ↦ (a, same ∙ k)
    | inr (inr (new, o, h)) ↦ (offered e, new)
  ]

  made_some :
      (l : Option CheckpointRef) (e : Event)
      → offers e ≡ true
      → (b : CheckpointRef) × (next_latest sanitize l e ≡ some b)
  made_some l e o = elim (next_latest-cases l e) [
    | inl (same, p) ↦ absurd (cc (o, p))
    | inr (inl (a, found, same, low)) ↦ (a, same ∙ found)
    | inr (inr (new, p, h)) ↦ (offered e, new)
  ]

  stays_some :
      (l : Option CheckpointRef) (es : List Event)
      → (a : CheckpointRef) × (l ≡ some a)
      → (r : CheckpointRef) × (latest_from sanitize l es ≡ some r)
  unfolding latest_from
  stays_some l [] k = k
  stays_some l (e ∷ es) k = stays_some (next_latest sanitize l e) es (kept_some l e k)

  finds_some :
      (l : Option CheckpointRef) (es : List Event) (e : Event)
      → offers e ≡ true
      → Memᴰ e es
      → (r : CheckpointRef) × (latest_from sanitize l es ≡ some r)
  unfolding latest_from
  finds_some l [] e o m = elim m [ ]
  finds_some l (x ∷ es) e o (Memᴰ.head k) =
      stays_some (next_latest sanitize l x) es (made_some l x (subst (λ y. offers y ≡ true) k o))
  finds_some l (x ∷ es) e o (Memᴰ.tail m) = finds_some (next_latest sanitize l x) es e o m

  -- Latest finds a checkpoint whenever the run has an event of one with a URI.
  pub latest-found :
      (es : List Event) (e : Event)
      → offers e ≡ true
      → Memᴰ e es
      → (r : CheckpointRef) × (latest sanitize es ≡ some r)
  unfolding latest
  latest-found es e o m = finds_some none es e o m
