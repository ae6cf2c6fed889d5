-- ===== src/Cli/Cleaned.antt =====
-- What `resources cleanup` leaves: no row that is still eligible.
use mathlib.Core.List.{Memᴰ}
use orchestrator_cli.Common.{
  String, Bool, true, false, none, some, List, [], ◌∷◌, ◌==◌, ◌≡◌, ◌≢◌, sym, ◌∙◌, ap, eq_iff, arith,
  inl, inr, Bool-cases, All,
}
use orchestrator_cli.Common.Sort.{mem_sort, sort_stable, All-sort_stable}
use orchestrator_cli.App.Runs.{ProviderResource}
use orchestrator_cli.App.Errors.{ok}
use orchestrator_cli.State.World.{World, Platform}
use orchestrator_cli.State.Action.{statement}
use orchestrator_cli.State.Tables.{rows}
use orchestrator_cli.State.Resources.{
  ProviderResourceFilter, provider_resources, upsert_resource, passes, resource_before,
}
use orchestrator_cli.State.RoundTrip.{find_resource, created_of, find-upsert_resource}
use orchestrator_cli.Cli.Cleanup.{
  AdapterCalls, provider_resource_state_active, resource_cleanup_eligible, cleanup_requested_state,
  cleanup_adapter_for_resource, cleanup_one, cleanup_loop, cleanup,
}
use orchestrator_cli.State.Passes.{bind_ok}
use orchestrator_cli.Cli.Succeeds.{both_ok, ok_inj, after_ok, statement_resources, cleanup_one_ok}

requested_inactive :
    (c : AdapterCalls) (r : ProviderResource)
    → cleanup_adapter_for_resource c r ≡ none
    → provider_resource_state_active (cleanup_requested_state r) ≡ false
unfolding cleanup_adapter_for_resource cleanup_requested_state provider_resource_state_active
requested_inactive c r h = ground arith

inactive_ineligible :
    (r : ProviderResource)
    → provider_resource_state_active r.state ≡ false
    → resource_cleanup_eligible r ≡ false
unfolding resource_cleanup_eligible
inactive_ineligible r h = ground arith

find_resource_id :
    (y : String) (rs : List ProviderResource) (r : ProviderResource)
    → find_resource y rs ≡ some r
    → r.id ≡ y
find_resource_id y [] r h = cc
find_resource_id y (x ∷ rs) r h = elim (Bool-cases (x.id == y)) [
  | inl e ↦
      let q : some x ≡ some r = rw e at h in
      let same : x ≡ r = cc in ap (λ t. t.id) (sym same) ∙ (eq_iff x.id y).0 e
  | inr e ↦ find_resource_id y rs r (rw e at h)
]

-- every eligible row that passes the filter is still to be visited
abbrev Remain : ProviderResourceFilter → List ProviderResource → List ProviderResource → Type 0
Remain f rest table =
    (y : String) (r : ProviderResource)
    → find_resource y table ≡ some r
    → passes f r ≡ true
    → resource_cleanup_eligible r ≡ true
    → Memᴰ r rest

skip :
    (f : ProviderResourceFilter) (x : ProviderResource) (rest table : List ProviderResource)
    → resource_cleanup_eligible x ≡ false
    → Remain f (x ∷ rest) table
    → Remain f rest table
skip f x rest table e h y r found pass eligible = go (h y r found pass eligible)
  where
    go : Memᴰ r (x ∷ rest) → Memᴰ r rest
    go (Memᴰ.tail m) = m
    go (Memᴰ.head same) = absurd (cc (ap resource_cleanup_eligible same))

visit :
    (f : ProviderResourceFilter) (x row : ProviderResource) (rest table : List ProviderResource)
    → row.id ≡ x.id
    → provider_resource_state_active row.state ≡ false
    → Remain f (x ∷ rest) table
    → Remain f rest (upsert_resource row table)
visit f x row rest table id state h y r found pass eligible = elim (Bool-cases (row.id == y)) [
  | inl e ↦
      let q = rw (find-upsert_resource y row table, e) at found in
      let same : record row { created_at = created_of row (find_resource row.id table) } ≡ r = cc in
      let off =
        inactive_ineligible
          (record row { created_at = created_of row (find_resource row.id table) }) state in
      absurd (cc (ap resource_cleanup_eligible same))
  | inr e ↦
      let q = rw (find-upsert_resource y row table, e) at found in
      go e (find_resource_id y table r q) (h y r q pass eligible)
]
  where
    go : (row.id == y) ≡ false → r.id ≡ y → Memᴰ r (x ∷ rest) → Memᴰ r rest
    go e k (Memᴰ.tail m) = m
    go e k (Memᴰ.head same) =
        let here : row.id ≡ y = id ∙ ap (λ t. t.id) (sym same) ∙ k in
        absurd (ground (arith, eq_iff row.id y))

mem_rows :
    (test : ProviderResource → Bool) (rs : List ProviderResource) (y : String)
    (r : ProviderResource)
    → find_resource y rs ≡ some r
    → test r ≡ true
    → Memᴰ r (rows test rs)
mem_rows test [] y r h t = absurd (cc h)
mem_rows test (x ∷ rs) y r h t = elim (Bool-cases (x.id == y)) [
  | inl e ↦
      let q : some x ≡ some r = rw e at h in
      let same : r ≡ x = cc in
      let kept : test x ≡ true = ap test (sym same) ∙ t in rw kept (Memᴰ.head same)
  | inr e ↦
      let m = mem_rows test rs y r (rw e at h) t in
      elim (Bool-cases (test x)) [ inl k ↦ rw k (Memᴰ.tail m) | inr k ↦ rw k m ]
]

All-rows :
    (P : ProviderResource → Type 0) (test : ProviderResource → Bool) (rs : List ProviderResource)
    → All P rs
    → All P (rows test rs)
All-rows P test [] h = tt
All-rows P test (x ∷ rs) h = elim (Bool-cases (test x)) [
  | inl e ↦ rw e (h.0, All-rows P test rs h.1)
  | inr e ↦ rw e (All-rows P test rs h.1)
]

module _ {F : Type 0} (c : AdapterCalls) (p : Platform) (f : ProviderResourceFilter) where
  cleanup_loop_ok :
      (rest out : List ProviderResource) (w v : World F)
      → All (λ r. r.id ≢ "") rest
      → Remain f rest w.resources
      → cleanup_loop c p false rest w ≡ (ok out, v)
      → Remain f [] v.resources
  unfolding cleanup_loop
  cleanup_loop_ok [] out w v ids h k = rw (ap (λ t. t.1.resources) (sym k)) h
  cleanup_loop_ok (r ∷ more) out w v ids h k = elim (Bool-cases (resource_cleanup_eligible r)) [
    | inr e ↦
        cleanup_loop_ok more out w v ids.1 (skip f r more w.resources e h)
          (rw (e, cleanup_loop) at k)
    | inl e ↦
        let q = rw (e, cleanup_loop) at k in
        let (saved, u, others, l, m) =
          both_ok (cleanup_one c p r) (cleanup_loop c p false more) ◌∷◌ q in
        let (adapter, (row, s, same, state)) = cleanup_one_ok c p r saved w u ids.0 l in
        cleanup_loop_ok more others u v ids.1
          (rw s (visit f r row more w.resources same (rw state (requested_inactive c r adapter)) h))
          m
  ]

  listed :
      (w u : World F) (rs : List ProviderResource)
      → provider_resources p f w ≡ (ok rs, u)
      → (rs ≡ sort_stable (resource_before p) (rows (passes f) w.resources))
        × (u.resources ≡ w.resources)
  unfolding provider_resources
  listed w u rs h =
      let (a, x, e, k) = bind_ok statement _ h in
      let same = after_ok statement w x a e (statement_resources w) in
      (rw (← same) (ok_inj _ _ (ap (λ t. t.0) (sym k))), ap (λ t. t.1.resources) (sym k) ∙ same)

  -- When `resources cleanup` returns without an error, and no row had an empty id, no row of the
  -- resources that passes the filter is still eligible for a cleanup.
  pub cleanup_complete :
      (w v : World F) (out : List ProviderResource) (y : String) (r : ProviderResource)
      → All (λ x. x.id ≢ "") w.resources
      → cleanup c p f false w ≡ (ok out, v)
      → find_resource y v.resources ≡ some r
      → passes f r ≡ true
      → resource_cleanup_eligible r ≡ false
  unfolding cleanup
  cleanup_complete w v out y r ids h found pass =
      let (rs, u, e, k) = bind_ok (provider_resources p f) _ h in
      let (same, kept) = listed w u rs e in
      let start : Remain f rs u.resources =
        rw (same, kept)
          (λ z x g t eligible. mem_sort _ _ x (mem_rows (passes f) w.resources z x g t)) in
      let names : All (λ x. x.id ≢ "") rs =
        rw same (All-sort_stable _ _ _ (All-rows _ (passes f) w.resources ids)) in
      elim (Bool-cases (resource_cleanup_eligible r)) [
        | inr off ↦ off
        | inl on ↦ elim (cleanup_loop_ok rs out u v names start k y r found pass on) [ ]
      ]
