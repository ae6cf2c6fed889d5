-- ===== src/Redact/Hidden.antt =====
-- That no value under a secret key is left in what `value` returns.
use Prim.Native.Char.{Char}
use orchestrator_cli.Common.{String, true, List, [], ◌∷◌, ◌≡◌, refl, inl, inr, Bool-cases}
use orchestrator_cli.Redact.Keys.{replacement, is_secret_key}
use orchestrator_cli.Redact.Values.{Value, Items, Fields}
use orchestrator_cli.Redact.Uris.{UriTools}
use orchestrator_cli.Redact.Redactor.{
  hide, redact_value, redact_items, redact_fields, redact_text_map,
}

abbrev pub PairsHidden : (Char → Char) → List (String × String) → Type 0
PairsHidden fold [] = Unit
PairsHidden fold ((k, v) ∷ more) =
    (is_secret_key fold k ≡ true → v ≡ replacement) × PairsHidden fold more

module _ {F : Type 0} (fold : Char → Char) where
  -- every entry of an object or a map whose key is secret is the replacement
  abbrev mutual
    pub IsHidden : Value F → Type 0
    IsHidden (Value.array vs) = AreHidden vs
    IsHidden (Value.object fs) = FieldsHidden fs
    IsHidden (Value.text_map m) = PairsHidden fold m
    IsHidden _ = Unit

    pub AreHidden : Items F → Type 0
    AreHidden Items.nil = Unit
    AreHidden (Items.cons v more) = IsHidden v × AreHidden more

    pub FieldsHidden : Fields F → Type 0
    FieldsHidden Fields.end = Unit
    FieldsHidden (Fields.field k v more) =
        (is_secret_key fold k ≡ true → v ≡ Value.text replacement) × IsHidden v × FieldsHidden more

text_map-PairsHidden :
    (t : UriTools) (values : List String) (m : List (String × String))
    → PairsHidden t.fold (redact_text_map t values m)
unfolding redact_text_map
text_map-PairsHidden t values [] = tt
text_map-PairsHidden t values ((k, v) ∷ more) = (λ h. rw h refl, text_map-PairsHidden t values more)

module _ {F : Type 0} (t : UriTools) (values : List String) where
  hide-IsHidden : (k : String) (v : Value F) → IsHidden t.fold v → IsHidden t.fold (hide t.fold k v)
  hide-IsHidden k v h = elim (Bool-cases (is_secret_key t.fold k)) [
    | inl e ↦ rw e tt
    | inr e ↦ rw e h
  ]

  redact_secret :
      (k : String) (v : Value F)
      → is_secret_key t.fold k ≡ true
      → redact_value t values k v ≡ Value.text replacement
  unfolding redact_value
  redact_secret k Value.null h = rw h refl
  redact_secret k (Value.boolean b) h = rw h refl
  redact_secret k (Value.number x) h = rw h refl
  redact_secret k (Value.integer n) h = rw h refl
  redact_secret k (Value.text s) h = rw h refl
  redact_secret k (Value.texts ss) h = rw h refl
  redact_secret k (Value.text_map m) h = rw h refl
  redact_secret k (Value.array vs) h = rw h refl
  redact_secret k (Value.object fs) h = rw h refl

  mutual
    unfolding redact_value

    value-IsHidden : (k : String) (v : Value F) → IsHidden t.fold (redact_value t values k v)
    value-IsHidden k Value.null = hide-IsHidden k Value.null tt
    value-IsHidden k (Value.boolean b) = hide-IsHidden k (Value.boolean b) tt
    value-IsHidden k (Value.number x) = hide-IsHidden k (Value.number x) tt
    value-IsHidden k (Value.integer n) = hide-IsHidden k (Value.integer n) tt
    value-IsHidden k (Value.text s) = hide-IsHidden k (Value.text _) tt
    value-IsHidden k (Value.texts ss) = hide-IsHidden k (Value.texts _) tt
    value-IsHidden k (Value.text_map m) =
        hide-IsHidden k (Value.text_map _) (text_map-PairsHidden t values m)
    value-IsHidden k (Value.array vs) = hide-IsHidden k (Value.array _) (items-AreHidden vs)
    value-IsHidden k (Value.object fs) = hide-IsHidden k (Value.object _) (fields-FieldsHidden fs)

    items-AreHidden : (vs : Items F) → AreHidden t.fold (redact_items t values vs)
    items-AreHidden Items.nil = tt
    items-AreHidden (Items.cons v more) = (value-IsHidden "" v, items-AreHidden more)

    fields-FieldsHidden : (fs : Fields F) → FieldsHidden t.fold (redact_fields t values fs)
    fields-FieldsHidden Fields.end = tt
    fields-FieldsHidden (Fields.field k v more) =
        (redact_secret k v, value-IsHidden k v, fields-FieldsHidden more)

  -- At any depth of what redact_value returns, an entry of an object or of a map with a secret key
  -- holds the replacement.
  pub redact_value-IsHidden :
      (k : String) (v : Value F) → IsHidden t.fold (redact_value t values k v)
  redact_value-IsHidden k v = value-IsHidden k v
