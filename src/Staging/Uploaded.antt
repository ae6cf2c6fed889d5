-- ===== src/Staging/Uploaded.antt =====
-- The uploads that a successful sequence of actions of internal/staging/managed.go has made.
use mathlib.Core.List.{map-append, append-nil, append_assoc}
use orchestrator_cli.Common.{
  String, List, [], ◌∷◌, ◌++◌, ◌≡◌, refl, sym, ◌∙◌, ap, inl, inr, map, Option-cases, length,
}
use orchestrator_cli.App.Errors.{Result, ok, err}
use orchestrator_cli.Staging.Prefix.{join_uri}
use orchestrator_cli.Staging.Managed.{
  Visited, StageTools, Uploads, Staging, ◌>>=◌, next, give, upload_file,
}

-- a successful sequence of two actions
pub next_ok :
    {A B : Type 0} (m : Staging A) (k : A → Staging B) {w v : Uploads} {b : B}
    → (m >>= k) w ≡ (ok b, v)
    → (a : A) × (u : Uploads) × (m w ≡ (ok a, u)) × (k a u ≡ (ok b, v))
unfolding ◌>>=◌
next_ok {A = A} {B = B} m k {w} {v} {b} h = go (m w) refl h
  where
    go :
        (r : Result A × Uploads)
        → m w ≡ r
        → next k r ≡ (ok b, v)
        → (a : A) × (u : Uploads) × (m w ≡ (ok a, u)) × (k a u ≡ (ok b, v))
    go (ok a, u) e h = (a, u, e, h)
    go (err x, u) e h = cc

-- the second list has these uploads, to these destinations, on top of the first one
abbrev pub Adds : Uploads → Uploads → Uploads → List String → Type 0
Adds w v new objects = (v ≡ w ++ new) × (map (λ u. u.1) new ≡ objects)

-- the uploads that a walk over a directory asks for: each file, to its relative path below the prefix
abbrev pub files_of : String → List Visited → Uploads
files_of prefix [] = []
files_of prefix (Visited.file path (ok rel) ∷ more) =
    (path, join_uri (prefix ∷ rel ∷ [])) ∷ files_of prefix more
files_of prefix (_ ∷ more) = files_of prefix more

pub upload_ok :
    (t : StageTools) (source destination : String) (w v : Uploads) (u : Unit {0})
    → upload_file t source destination w ≡ (ok u, v)
    → v ≡ w ++ ((source, destination) ∷ [])
unfolding upload_file
upload_ok t source destination w v u h =
    elim (Option-cases (t.upload source destination (length w))) [
      | inl e ↦ let q = rw e at h in sym (ap (λ z. z.1) q)
      | inr (x, e) ↦ let q = rw e at h in absurd (cc q)
    ]

pub gave : {A : Type 0} (a b : A) (w v : Uploads) → give a w ≡ (ok b, v) → (a ≡ b) × (w ≡ v)
gave {A = A} a b w v h =
    let q : ◌≡◌ {A = Result A} (ok a) (ok b) = ap (λ z. z.0) h in (cc, ap (λ z. z.1) h)

pub Adds-as :
    (w w1 v v1 new : Uploads) (a b : List String)
    → w1 ≡ w
    → v1 ≡ v
    → a ≡ b
    → Adds w1 v1 new a
    → Adds w v new b
Adds-as w w1 v v1 new a b p q r h = rw (← p, ← q, ← r) h

pub Adds-nil : (w : Uploads) → Adds w w [] []
Adds-nil w = (sym (append-nil w), refl)

pub Adds-append :
    (w u v x y : Uploads) (a b : List String)
    → Adds w u x a
    → Adds u v y b
    → Adds w v (x ++ y) (a ++ b)
Adds-append w u v x y a b (p, q) (r, s) = (
  r ∙ ap (λ z. z ++ y) p ∙ append_assoc w x y,
  map-append {A = String × String} (λ z. z.1) x y
      ∙ ap (λ z. z ++ map (λ u. u.1) y) q
      ∙ ap (λ z. a ++ z) s,
)
