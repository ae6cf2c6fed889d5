-- ===== src/State/RoundTrip.antt =====
-- What a save in internal/state/store.go makes a later read return.
use orchestrator_cli.Common.{
  String, false, ◌==◌, eq_iff, arith, ◌≡◌, refl, sym, ◌∙◌, ap, inl, inr, Option, none, some, List,
  [], ◌∷◌, if◌then◌else◌, Bool-cases,
}
use orchestrator_cli.App.Runs.{ProviderResource, Time}
use orchestrator_cli.App.Errors.{ok, err, Result}
use orchestrator_cli.App.Decision.{RoutingDecision, HardwareSelection}
use orchestrator_cli.State.World.{World, DecisionRow}
use orchestrator_cli.State.Action.{Action, ◌>>=◌, statement, returned}
use orchestrator_cli.Common.Float.{Float64, IsNumber}
use orchestrator_cli.State.Decisions.{
  DecisionJson, real_column, marshal_selected, unmarshal_selected, row_of, write_decision,
  save_routing_decision, get_routing_decision, read_decision, upsert_decision, find_decision,
}
use orchestrator_cli.State.Passes.{bind_ok}
use orchestrator_cli.State.Resources.{upsert_resource}

module _ {F : Type 0} where
  find_decision-upsert_decision :
      (id : String) (d : DecisionRow F) (ds : List (DecisionRow F))
      → find_decision id (upsert_decision d ds)
        ≡ (if d.run_id == id then some d else find_decision id ds)
  unfolding find_decision upsert_decision
  find_decision-upsert_decision id d [] = refl
  find_decision-upsert_decision id d (x ∷ ds) = elim (Bool-cases (x.run_id == d.run_id)) [
    | inl e ↦ rw e (same ((eq_iff x.run_id d.run_id).0 e))
    | inr e ↦ rw e (elim (Bool-cases (x.run_id == id)) [
      | inl k ↦ rw k (other e ((eq_iff x.run_id id).0 k))
      | inr k ↦ rw k (find_decision-upsert_decision id d ds)
    ])
  ]
    where
      same :
          x.run_id ≡ d.run_id
          → (if d.run_id == id then some d else find_decision id ds) ≡ (
              if d.run_id == id
              then some d
              else (if x.run_id == id then some x else find_decision id ds))
      same e = rw e (elim (Bool-cases (d.run_id == id)) [ inl k ↦ rw k refl | inr k ↦ rw k refl ])

      other :
          (x.run_id == d.run_id) ≡ false
          → x.run_id ≡ id
          → some x ≡ (if d.run_id == id then some d else some x)
      other e k = elim (Bool-cases (d.run_id == id)) [
        | inl h ↦ absurd (ground (arith, eq_iff x.run_id d.run_id, eq_iff d.run_id id))
        | inr h ↦ rw h refl
      ]

-- encoding/json reads the five columns of this decision back as they were
pub record ReadsBack {F : Type 0} (j : DecisionJson F) (d : RoutingDecision F) : Type 0 where
  pub eligible :
      (s : String)
      → j.marshal_candidates d.eligible_providers ≡ ok s
      → j.unmarshal_candidates s ≡ ok d.eligible_providers
  pub rejected :
      (s : String)
      → j.marshal_candidates d.rejected_providers ≡ ok s
      → j.unmarshal_candidates s ≡ ok d.rejected_providers
  pub selection :
      (h : HardwareSelection F) (s : String)
      → d.selected_hardware ≡ some h
      → j.marshal_selection h ≡ ok s
      → ((s == "") ≡ false) × (j.unmarshal_selection s ≡ ok h)
  pub eligible_hardware :
      (s : String)
      → j.marshal_hardware d.eligible_hardware ≡ ok s
      → ((s == "") ≡ false) × (j.unmarshal_hardware s ≡ ok d.eligible_hardware)
  pub rejected_hardware :
      (s : String)
      → j.marshal_hardware d.rejected_hardware ≡ ok s
      → ((s == "") ≡ false) × (j.unmarshal_hardware s ≡ ok d.rejected_hardware)

-- an estimate is not NaN
abbrev IsKnown : {F : Type 0} ⦃f : Float64 F⦄ → Option F → Type 0
IsKnown none = Unit
IsKnown (some x) = IsNumber x

abbrev pub HasNumbers : {F : Type 0} ⦃f : Float64 F⦄ → RoutingDecision F → Type 0
HasNumbers d =
    IsKnown d.estimated_required_vram_gb
    × IsKnown d.estimated_runtime_seconds
    × IsKnown d.estimated_total_cost_usd

module _ {F : Type 0} ⦃f : Float64 F⦄ (j : DecisionJson F) where
  real_column_lem : (o : Option F) → IsKnown o → real_column o ≡ o
  real_column_lem none h = refl
  real_column_lem (some x) h = rw h refl

  -- what a save that succeeds has put together
  saved_row :
      (d : RoutingDecision F) (w v : World F)
      → save_routing_decision j d w ≡ (ok tt, v)
      → (a : String) × (b : String) × (c : String) × (e : String) × (g : String)
        × (j.marshal_candidates d.eligible_providers ≡ ok a)
        × (j.marshal_candidates d.rejected_providers ≡ ok b)
        × (marshal_selected j d.selected_hardware ≡ ok c)
        × (j.marshal_hardware d.eligible_hardware ≡ ok e)
        × (j.marshal_hardware d.rejected_hardware ≡ ok g)
        × (write_decision (row_of d a b c e g) w ≡ (ok tt, v))
  unfolding save_routing_decision
  saved_row d w v h =
      let (a, w1, p1, k1) = bind_ok (returned (j.marshal_candidates d.eligible_providers)) _ h in
      let (b, w2, p2, k2) = bind_ok (returned (j.marshal_candidates d.rejected_providers)) _ k1 in
      let (c, w3, p3, k3) = bind_ok (returned (marshal_selected j d.selected_hardware)) _ k2 in
      let (e, w4, p4, k4) = bind_ok (returned (j.marshal_hardware d.eligible_hardware)) _ k3 in
      let (g, w5, p5, k5) = bind_ok (returned (j.marshal_hardware d.rejected_hardware)) _ k4 in
      let same : w5 ≡ w = sym (
        ap (λ t. t.1) p1
        ∙ ap (λ t. t.1) p2
        ∙ ap (λ t. t.1) p3
        ∙ ap (λ t. t.1) p4
        ∙ ap (λ t. t.1) p5) in
      (
        a,
        b,
        c,
        e,
        g,
        ap (λ t. t.0) p1,
        ap (λ t. t.0) p2,
        ap (λ t. t.0) p3,
        ap (λ t. t.0) p4,
        ap (λ t. t.0) p5,
        ap (write_decision (row_of d a b c e g)) (sym same) ∙ k5,
      )

  unmarshal_selected_lem :
      (o : Option (HardwareSelection F)) (s : String)
      → ((h : HardwareSelection F)
          → o ≡ some h
          → j.marshal_selection h ≡ ok s
          → ((s == "") ≡ false) × (j.unmarshal_selection s ≡ ok h))
      → marshal_selected j o ≡ ok s
      → unmarshal_selected j s ≡ ok o
  unmarshal_selected_lem none s h k = let e : s ≡ "" = cc in rw e refl
  unmarshal_selected_lem (some x) s h k = let (a, b) = h x refl k in rw (a, b) refl

  read_row :
      (id : String) (d : RoutingDecision F) (a b c e g : String) (w : World F)
      → ReadsBack j d
      → HasNumbers d
      → j.marshal_candidates d.eligible_providers ≡ ok a
      → j.marshal_candidates d.rejected_providers ≡ ok b
      → marshal_selected j d.selected_hardware ≡ ok c
      → j.marshal_hardware d.eligible_hardware ≡ ok e
      → j.marshal_hardware d.rejected_hardware ≡ ok g
      → (read_decision j id (some (row_of d a b c e g)) w).0 ≡ ok d
  unfolding ◌>>=◌
  read_row id d a b c e g w back (x, y, z) p q r s t =
      let (s1, s2) = back.eligible_hardware e s in
      let (t1, t2) = back.rejected_hardware g t in
      rw
        (
          back.eligible a p,
          back.rejected b q,
          unmarshal_selected_lem d.selected_hardware c (λ h. back.selection h c) r,
          s1,
          s2,
          t1,
          t2,
          real_column_lem d.estimated_required_vram_gb x,
          real_column_lem d.estimated_runtime_seconds y,
          real_column_lem d.estimated_total_cost_usd z,
        )
        refl

  written :
      (row : DecisionRow F) (w v : World F)
      → w.faults ≡ []
      → write_decision row w ≡ (ok tt, v)
      → (v.faults ≡ []) × (v.decisions ≡ upsert_decision row w.decisions)
  unfolding statement ◌>>=◌
  written row w v h k =
      let q = rw (h, statement) at k in
      let same = ap (λ t. t.1) q in
      (sym (ap (λ t. t.faults) same), sym (ap (λ t. t.decisions) same))

  get_row :
      (id : String) (w : World F)
      → w.faults ≡ []
      → (get_routing_decision j id w).0 ≡ (read_decision j id (find_decision id w.decisions) w).0
  unfolding get_routing_decision statement ◌>>=◌
  get_row id w h = rw (h, statement) refl

  returned_alike :
      {A B : Type 0} (r : Result A) (k : A → Action F B) (w v : World F)
      → ((a : A) → (k a w).0 ≡ (k a v).0)
      → ((returned r >>= k) w).0 ≡ ((returned r >>= k) v).0
  unfolding ◌>>=◌
  returned_alike (ok a) k w v h = h a
  returned_alike (err e) k w v h = refl

  read_alike :
      (id : String) (o : Option (DecisionRow F)) (w v : World F)
      → (read_decision j id o w).0 ≡ (read_decision j id o v).0
  read_alike id none w v = refl
  read_alike id (some row) w v = returned_alike _ _ w v (λ a. returned_alike _ _ w v (λ b.
      returned_alike _ _ w v
        (λ c. returned_alike _ _ w v (λ d. returned_alike _ _ w v (λ e. refl)))))

  -- When a save of a decision succeeds and SQLite refuses nothing, no estimate of the decision is NaN,
  -- and encoding/json reads its five columns back as they were, then the read of a decision returns the
  -- saved decision for its run, and for any other run what it returned before.
  pub get-save_routing_decision :
      (id : String) (d : RoutingDecision F) (w v : World F)
      → w.faults ≡ []
      → save_routing_decision j d w ≡ (ok tt, v)
      → HasNumbers d
      → ReadsBack j d
      → (get_routing_decision j id v).0
        ≡ (if d.run_id == id then ok d else (get_routing_decision j id w).0)
  get-save_routing_decision id d w v h k numbers back =
      let (a, b, c, e, g, p, q, r, s, t, l) = saved_row d w v k in
      let row = row_of d a b c e g in
      let (calm, table) = written row w v h l in
      let read =
        get_row id v calm ∙ ap (λ ds. (read_decision j id (find_decision id ds) v).0) table in
      let found =
        ap (λ o. (read_decision j id o v).0) (find_decision-upsert_decision id row w.decisions) in
      elim (Bool-cases (d.run_id == id)) [
        | inl y ↦ rw y (read ∙ rw y at found ∙ read_row id d a b c e g v back numbers p q r s t)
        | inr n ↦ rw n (
            read
            ∙ rw n at found
            ∙ read_alike id (find_decision id w.decisions) v w
            ∙ sym (get_row id w h))
      ]

-- the row of a resource
abbrev pub find_resource : String → List ProviderResource → Option ProviderResource
find_resource id [] = none
find_resource id (r ∷ rs) = if r.id == id then some r else find_resource id rs

abbrev pub created_of : ProviderResource → Option ProviderResource → Time
created_of r none = r.created_at
created_of r (some old) = old.created_at

-- An upsert of a resource changes the row of its id only, takes every column from the new resource,
-- and keeps the creation instant of a row that was there.
pub find-upsert_resource :
    (id : String) (r : ProviderResource) (rs : List ProviderResource)
    → find_resource id (upsert_resource r rs) ≡ (
        if r.id == id
        then some (record r { created_at = created_of r (find_resource r.id rs) })
        else find_resource id rs)
unfolding upsert_resource
find-upsert_resource id r [] = refl
find-upsert_resource id r (x ∷ rs) = elim (Bool-cases (x.id == r.id)) [
  | inl e ↦ rw e (same ((eq_iff x.id r.id).0 e))
  | inr e ↦ rw e (elim (Bool-cases (x.id == id)) [
    | inl k ↦ rw k (other _ e ((eq_iff x.id id).0 k))
    | inr k ↦ rw k (find-upsert_resource id r rs)
  ])
]
  where
    same :
        x.id ≡ r.id
        → (if r.id == id
            then some (record r { created_at = x.created_at })
            else find_resource id rs)
          ≡ (if r.id == id
              then some (record r { created_at = x.created_at })
              else (if x.id == id then some x else find_resource id rs))
    same e = elim (Bool-cases (r.id == id)) [
      | inl k ↦ rw k refl
      | inr k ↦ let apart : (x.id == id) ≡ false = rw (ap (λ y. y == id) e) k in rw (k, apart) refl
    ]

    other :
        (v : ProviderResource)
        → (x.id == r.id) ≡ false
        → x.id ≡ id
        → some x ≡ (if r.id == id then some v else some x)
    other v e k = elim (Bool-cases (r.id == id)) [
      | inl h ↦ absurd (ground (arith, eq_iff x.id r.id, eq_iff r.id id))
      | inr h ↦ rw h refl
    ]
