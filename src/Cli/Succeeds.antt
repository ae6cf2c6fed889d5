-- ===== src/Cli/Succeeds.antt =====
-- What is known after an action that returned without an error.
use orchestrator_cli.Common.{
  ℕ, String, Option, none, some, ◌==◌, ◌≡◌, ◌≢◌, refl, sym, ◌∙◌, ap, eq_iff, inl, inr, Bool-cases,
  List-cases,
}
use orchestrator_cli.App.Runs.{ProviderResource}
use orchestrator_cli.App.Errors.{Error, Result, ok}
use orchestrator_cli.State.World.{World, Platform}
use orchestrator_cli.State.Passes.{bind_ok}
use orchestrator_cli.State.Action.{Action, ◌>>=◌, ◌>>◌, change, give, statement, now, asks}
use orchestrator_cli.State.Resources.{
  save_provider_resource, upsert_resource, resource_id, write_resource, or_now,
}
use orchestrator_cli.Cli.Cleanup.{
  AdapterCalls, cleanup_requested_state, cleanup_adapter_for_resource, cleaned, cleanup_one, raise,
  error_or,
}

-- two actions whose results are put together
pub both_ok :
    {F A B C : Type 0} (m : Action F A) (n : Action F B) (g : A → B → C) {w v : World F} {out : C}
    → (m >>= λ a. n >>= λ b. give (g a b)) w ≡ (ok out, v)
    → (a : A) × (u : World F) × (b : B) × (m w ≡ (ok a, u)) × (n u ≡ (ok b, v))
both_ok m n g {w} {v} h =
    let (a, u, e, k) = bind_ok m _ h in
    let (b, x, l, o) = bind_ok n _ k in (a, u, b, e, l ∙ ap (λ t. (ok b, t)) (ap (λ t. t.1) o))

pub ok_inj : {A : Type 0} (a b : A) → ◌≡◌ {A = Result A} (ok a) (ok b) → a ≡ b
ok_inj a b h = cc

module _ {F : Type 0} where
  pub statement_resources : (w : World F) → (statement w).1.resources ≡ w.resources
  unfolding statement
  statement_resources w = elim (List-cases w.faults) [
    | inl e ↦ rw (e, statement) refl
    | inr (none, fs, e) ↦ rw (e, statement) refl
    | inr (some x, fs, e) ↦ rw (e, statement) refl
  ]

  raised : (e : Option Error) (w u : World F) (a : Unit {0}) → raise e w ≡ (ok a, u) → e ≡ none
  raised none w u a h = refl
  raised (some x) w u a h = cc

  asks_resources :
      {A : Type 0} (g : ℕ → Result A) (w : World F) → (asks g w).1.resources ≡ w.resources
  unfolding asks
  asks_resources g w = refl

  -- the tables after an action, by the outcome that is known of it
  pub after_ok :
      {A : Type 0} (m : Action F A) (w u : World F) (a : A)
      → m w ≡ (ok a, u)
      → (m w).1.resources ≡ w.resources
      → u.resources ≡ w.resources
  after_ok m w u a e h = sym (ap (λ t. t.1.resources) e) ∙ h

  written :
      (r saved : ProviderResource) (u v : World F)
      → (change (λ w. record w { resources = upsert_resource r w.resources }) >> give r) u
        ≡ (ok saved, v)
      → v.resources ≡ upsert_resource r u.resources
  unfolding ◌>>=◌
  written r saved u v h = sym (ap (λ t. t.1.resources) h)

  write_resource_ok :
      (r saved : ProviderResource) (w v : World F)
      → write_resource r w ≡ (ok saved, v)
      → v.resources ≡ upsert_resource r w.resources
  unfolding write_resource
  write_resource_ok r saved w v h =
      let (a, u, e, k) = bind_ok statement _ h in
      written r saved u v k
      ∙ ap (upsert_resource r) (after_ok statement w u a e (statement_resources w))

  now_resources : (p : Platform) (w : World F) → (now p w).1.resources ≡ w.resources
  unfolding now
  now_resources p w = refl

  resource_id_ok :
      (p : Platform) (id j : String) (w u : World F)
      → id ≢ ""
      → resource_id p id w ≡ (ok j, u)
      → (j ≡ id) × (u.resources ≡ w.resources)
  unfolding resource_id
  resource_id_ok p id j w u h e = elim (Bool-cases (id == "")) [
    | inl k ↦ absurd (h ((eq_iff id "").0 k))
    | inr k ↦ let q : give id w ≡ (ok j, u) = rw k at e in (cc, sym (ap (λ t. t.1.resources) q))
  ]

  save_ok :
      (p : Platform) (r saved : ProviderResource) (w v : World F)
      → r.id ≢ ""
      → save_provider_resource p r w ≡ (ok saved, v)
      → (row : ProviderResource) × (v.resources ≡ upsert_resource row w.resources)
        × (row.id ≡ r.id)
        × (row.state ≡ r.state)
  unfolding save_provider_resource
  save_ok p r saved w v h k =
      let (t, u, e, l) = bind_ok (now p) _ k in
      let (id, x, n, o) = bind_ok (resource_id p r.id) _ l in
      let q = write_resource_ok _ saved x v o in
      let (same, kept) = resource_id_ok p r.id id u x h n in
      let first = after_ok (now p) w u t e (now_resources p w) in
      (
        record r {
          id = id;
          created_at = or_now t r.created_at;
          updated_at = or_now t r.updated_at;
        },
        q ∙ ap (upsert_resource _) (kept ∙ first),
        same,
        refl,
      )

  pub cleanup_one_ok :
      (c : AdapterCalls) (p : Platform) (r saved : ProviderResource) (w v : World F)
      → r.id ≢ ""
      → cleanup_one c p r w ≡ (ok saved, v)
      → (cleanup_adapter_for_resource c r ≡ none)
        × ((row : ProviderResource) × (v.resources ≡ upsert_resource row w.resources)
            × (row.id ≡ r.id)
            × (row.state ≡ cleanup_requested_state r))
  unfolding cleanup_one
  cleanup_one_ok c p r saved w v h k =
      let (a, u, e, l) = bind_ok (raise (cleanup_adapter_for_resource c r)) _ k in
      let (b, x, m, n) =
        bind_ok (asks (λ i. error_or (c.cancel r.provider r.provider_ref i))) _ l in
      let (t, y, o, q) = bind_ok (now p) _ n in
      let (row, s, same, state) = save_ok p (cleaned p r t) saved y v h q in
      let first = after_ok (raise (cleanup_adapter_for_resource c r)) w u a e refl in
      let second =
        after_ok (asks (λ i. error_or (c.cancel r.provider r.provider_ref i))) u x b m
          (asks_resources _ u) in
      let third = after_ok (now p) x y t o (now_resources p x) in
      (raised _ w u a e, (row, s ∙ ap (upsert_resource row) (third ∙ second ∙ first), same, state))
