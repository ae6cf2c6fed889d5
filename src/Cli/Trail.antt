-- ===== src/Cli/Trail.antt =====
-- Trails of providers: which ones a number of attempts was made on.
use mathlib.Core.List.{append_assoc, append-nil}
use orchestrator_cli.Common.{
  ℕ, suc, ◌≤◌, String, false, eq_iff, arith, ◌≡◌, ◌≢◌, sym, ◌∙◌, ◌⊎◌, inl, inr, List, [], ◌∷◌, ◌++◌,
  All, length,
}
use orchestrator_cli.Routing.Providers.{contains}

-- no value twice
abbrev pub Distinct : List String → Type 0
Distinct [] = Unit {0}
Distinct (x ∷ xs) = All (λ y. y ≢ x) xs × Distinct xs

-- from `before` to `after`, at most `n` providers were tried, none of them twice or excluded
pub record Trail (excluded : List String) (n : ℕ) (before after : List String) : Type 0 where
  pub made : List String
  pub adds : after ≡ before ++ made
  pub allowed : All (λ p. contains excluded p ≡ false) made
  pub distinct : Distinct made
  pub few : length made ≤ n

pub stay-Trail :
    (excluded : List String) (n : ℕ) (before : List String) → Trail excluded n before before
stay-Trail excluded n before = record {
  made = [];
  adds = sym (append-nil before);
  allowed = tt;
  distinct = tt;
  few = ground arith;
}

not_contained :
    (excluded : List String) (p q : String)
    → contains (p ∷ excluded) q ≡ false
    → (contains excluded q ≡ false) × (q ≢ p)
unfolding contains
not_contained excluded p q h = ground (arith, eq_iff p q)

All-allowed :
    (excluded : List String) (p : String) (qs : List String)
    → All (λ q. contains (p ∷ excluded) q ≡ false) qs
    → All (λ q. contains excluded q ≡ false) qs × All (λ q. q ≢ p) qs
All-allowed excluded p [] h = (tt, tt)
All-allowed excluded p (q ∷ qs) h =
    let (free, other) = not_contained excluded p q h.0 in
    let (rest, others) = All-allowed excluded p qs h.1 in ((free, rest), (other, others))

-- one more provider in front
pub more-Trail :
    (excluded : List String) (n : ℕ) (before between after : List String) (p : String)
    → contains excluded p ≡ false
    → (between ≡ before) ⊎ (between ≡ before ++ (p ∷ []))
    → Trail (p ∷ excluded) n between after
    → Trail excluded (suc n) before after
more-Trail excluded n before between after p h (inl e) t = record {
  made = t.made;
  adds = rw (← e) t.adds;
  allowed = (All-allowed excluded p t.made t.allowed).0;
  distinct = t.distinct;
  few = omega (arith, t.few);
}
more-Trail excluded n before between after p h (inr e) t = record {
  made = p ∷ t.made;
  adds = t.adds ∙ rw e (append_assoc before (p ∷ []) t.made);
  allowed = (h, (All-allowed excluded p t.made t.allowed).0);
  distinct = ((All-allowed excluded p t.made t.allowed).1, t.distinct);
  few = omega (arith, t.few);
}
