-- ===== src/Common/Lex.antt =====
-- A comparison that falls through to the next one on equal keys, as the `less` functions that the
-- program hands to sort.SliceStable do.
use mathlib.Core.Path.{◌≡◌}
use mathlib.Core.Bool.{Bool, true, false, not, ◌&&◌}
use native.Mathlib.Omega.{arith}
use orchestrator_cli.Common.Tests.{if◌then◌else◌}

-- the laws of a strict order with ties, on the elements with `D`
pub record IsStrict {ℓ κ} {A : Type ℓ} (D : A → Type κ) (less : A → A → Bool) : Type (ℓ ⊔ κ) where
  pub asym : (a b : A) → D a → D b → less a b ≡ true → less b a ≡ false
  pub trans : (a b c : A) → D a → D b → D c → less b a ≡ false → less c b ≡ false → less c a ≡ false

-- `eq` is the tie of `lt`
abbrev pub IsTie {ℓ κ} :
    {A : Type ℓ} → (A → Type κ) → (A → A → Bool) → (A → A → Bool) → Type (ℓ ⊔ κ)
IsTie {A = A} D lt eq = (a b : A) → D a → D b → eq a b ≡ (not (lt a b) && not (lt b a))

module _ {ℓ κ} {A : Type ℓ} (D : A → Type κ) (lt eq rest : A → A → Bool) where
  abbrev pub lex : A → A → Bool
  lex a b = if eq a b then rest a b else lt a b

  pub lex-IsStrict : IsStrict D lt → IsTie D lt eq → IsStrict D rest → IsStrict D lex
  lex-IsStrict h t k = record {
    asym = λ a b p q e.
        ground (arith, h.asym a b p q, h.asym b a q p, k.asym a b p q, t a b p q, t b a q p);
    trans = λ a b c p q r e g. ground (
      arith,
      h.trans a b c p q r,
      h.trans b c a q r p,
      h.trans c a b r p q,
      h.asym a b p q,
      h.asym b c q r,
      h.asym a c p r,
      k.trans a b c p q r,
      t b a q p,
      t c b r q,
      t c a r p,
    );
  }
