-- ===== src/Common/Sort.antt =====
-- sort.SliceStable and sort.Slice: stable insertion by the comparison `less`.
use mathlib.Core.Path.{◌≡◌}
use mathlib.Core.Bool.{Bool, true, false}
use mathlib.Core.Logic.{inl, inr}
use mathlib.Core.List.{List, [], ◌∷◌, Perm, Memᴰ}
use mathlib.Core.List.Perm
use orchestrator_cli.Common.Tests.{if◌then◌else◌, Bool-cases}
use orchestrator_cli.Common.Lists.{All, All-of_mem, All-mem}

module _ {ℓ} {A : Type ℓ} (less : A → A → Bool) where
  unfoldable pub insert : A → List A → List A
  insert x [] = x ∷ []
  insert x (y ∷ ys) = let later = y ∷ insert x ys in if less y x then later else x ∷ y ∷ ys

  unfoldable pub sort_stable : List A → List A
  unfolding insert
  sort_stable [] = []
  sort_stable (x ∷ xs) = insert x (sort_stable xs)

  -- nothing in the list comes strictly before `x`
  abbrev pub NoneBefore : A → List A → Type 0
  NoneBefore x = All (λ y. less y x ≡ false)

  abbrev pub IsSorted : List A → Type 0
  IsSorted [] = Unit
  IsSorted (x ∷ xs) = NoneBefore x xs × IsSorted xs

module _ {ℓ} {A : Type ℓ} (less : A → A → Bool) where
  insert-perm : (x : A) (xs : List A) → Perm (insert less x xs) (x ∷ xs)
  unfolding insert
  insert-perm x [] = Perm.refl (x ∷ [])
  insert-perm x (y ∷ ys) = elim (Bool-cases (less y x)) [
    | inl b ↦ rw b (Perm.trans (Perm.cons y (insert-perm x ys)) (Perm.swap x y ys))
    | inr a ↦ rw a (Perm.refl (x ∷ y ∷ ys))
  ]

  -- Sorting moves elements and neither drops nor repeats one.
  pub sort_stable-perm : (xs : List A) → Perm (sort_stable less xs) xs
  unfolding sort_stable
  sort_stable-perm [] = Perm.refl []
  sort_stable-perm (x ∷ xs) =
      Perm.trans (insert-perm x (sort_stable less xs)) (Perm.cons x (sort_stable-perm xs))

module _ {ℓ κ} {A : Type ℓ} (less : A → A → Bool) (P : A → Type κ) where
  All-insert : (x : A) (ys : List A) → P x → All P ys → All P (insert less x ys)
  unfolding insert
  All-insert x [] p h = (p, tt)
  All-insert x (y ∷ ys) p h = elim (Bool-cases (less y x)) [
    | inl b ↦ rw b (h.0, All-insert x ys p h.1)
    | inr a ↦ rw a (p, h)
  ]

  -- What holds of every element holds of every element after sorting.
  pub All-sort_stable : (xs : List A) → All P xs → All P (sort_stable less xs)
  unfolding sort_stable
  All-sort_stable [] h = tt
  All-sort_stable (x ∷ xs) h = All-insert x (sort_stable less xs) h.0 (All-sort_stable xs h.1)

  All-of_insert : (x : A) (ys : List A) → All P (insert less x ys) → P x × All P ys
  unfolding insert
  All-of_insert x [] h = h
  All-of_insert x (y ∷ ys) h = elim (Bool-cases (less y x)) [
    | inl b ↦
        let k : P y × All P (insert less x ys) = rw b at h in
        let r = All-of_insert x ys k.1 in (r.0, (k.0, r.1))
    | inr a ↦ rw a at h
  ]

  pub All-of_sort_stable : (xs : List A) → All P (sort_stable less xs) → All P xs
  unfolding sort_stable
  All-of_sort_stable [] h = tt
  All-of_sort_stable (x ∷ xs) h =
      let r = All-of_insert x (sort_stable less xs) h in (r.0, All-of_sort_stable xs r.1)

pub mem_sort {ℓ} :
    {A : Type ℓ} (less : A → A → Bool) (xs : List A) (x : A)
    → Memᴰ x xs
    → Memᴰ x (sort_stable less xs)
mem_sort less xs x m =
    All-mem (λ a. Memᴰ a (sort_stable less xs)) xs
      (All-of_sort_stable less (λ a. Memᴰ a (sort_stable less xs)) xs
        (All-of_mem (λ a. Memᴰ a (sort_stable less xs)) (sort_stable less xs) (λ a k. k)))
      m

-- The comparison is a strict order on the elements with `D`, ties allowed.
module _ {ℓ κ} {A : Type ℓ} (less : A → A → Bool) (D : A → Type κ)
    (asym : (a b : A) → D a → D b → less a b ≡ true → less b a ≡ false)
    (trans : (a b c : A)
      → D a
      → D b
      → D c
      → less b a ≡ false
      → less c b ≡ false
      → less c a ≡ false) where
  NoneBefore-trans :
      (a b : A) (xs : List A)
      → D a
      → D b
      → All D xs
      → less b a ≡ false
      → NoneBefore less b xs
      → NoneBefore less a xs
  NoneBefore-trans a b [] da db h e k = tt
  NoneBefore-trans a b (x ∷ xs) da db h e k =
      (trans a b x da db h.0 e k.0, NoneBefore-trans a b xs da db h.1 e k.1)

  insert-IsSorted :
      (x : A) (ys : List A) → D x → All D ys → IsSorted less ys → IsSorted less (insert less x ys)
  unfolding insert
  insert-IsSorted x [] d h s = (tt, tt)
  insert-IsSorted x (y ∷ ys) d h s = elim (Bool-cases (less y x)) [
    | inl b ↦ rw b (
      All-insert less (λ z. less z y ≡ false) x ys (asym y x h.0 d b) s.0,
      insert-IsSorted x ys d h.1 s.1,
    )
    | inr a ↦ rw a ((a, NoneBefore-trans x y ys d h.0 h.1 a s.0), s)
  ]

  -- Sorting puts the elements in the order of the comparison.
  pub sort_stable-IsSorted : (xs : List A) → All D xs → IsSorted less (sort_stable less xs)
  unfolding sort_stable
  sort_stable-IsSorted [] h = tt
  sort_stable-IsSorted (x ∷ xs) h =
      insert-IsSorted x (sort_stable less xs) h.0 (All-sort_stable less D xs h.1)
        (sort_stable-IsSorted xs h.1)

  irrefl : (y : A) → D y → less y y ≡ false
  irrefl y d = elim (Bool-cases (less y y)) [ inl b ↦ asym y y d d b | inr a ↦ a ]

  -- No element of the list comes strictly before the first one after sorting.
  pub first-NoneBefore :
      (xs : List A) {y : A} {ys : List A}
      → All D xs
      → sort_stable less xs ≡ y ∷ ys
      → NoneBefore less y xs
  first-NoneBefore xs {y} {ys} h e =
      All-of_sort_stable less (λ z. less z y ≡ false) xs
        (rw e (
          irrefl y (rw e at (All-sort_stable less D xs h)).0,
          (rw e at (sort_stable-IsSorted xs h)).0,
        ))
