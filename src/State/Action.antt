-- ===== src/State/Action.antt =====
-- Calls that change the world and can fail, in sequence, and how a relation between the worlds
-- before and after passes through a sequence.
use orchestrator_cli.Common.{ℕ, String, true, Option, none, some, List, [], ◌∷◌, ◌+◌}
use orchestrator_cli.App.Errors.{Error, Result, ok, err}
use orchestrator_cli.State.World.{World, Platform}

abbrev pub Action : Type 0 → Type 0 → Type 0
Action F A = World F → Result A × World F

abbrev pub continue : {F A B : Type 0} → (A → Action F B) → Result A × World F → Result B × World F
continue k (ok a, w) = k a w
continue k (err e, w) = (err e, w)

infixl 5 ◌>>=◌ ◌>>◌
unfoldable pub ◌>>=◌ : {F A B : Type 0} → Action F A → (A → Action F B) → Action F B
(m >>= k) w = continue k (m w)

abbrev pub ◌>>◌ : {F A B : Type 0} → Action F A → Action F B → Action F B
m >> k = m >>= λ a. k

abbrev pub give : {F A : Type 0} → A → Action F A
give a w = (ok a, w)

abbrev pub fail : {F A : Type 0} → Error → Action F A
fail e w = (err e, w)

-- `_ = f()`: the error is dropped
unfoldable pub ignore : {F A : Type 0} → Action F A → Action F (Unit {0})
ignore m w = (ok tt, (m w).1)

-- `err := f()` with the error as a value
unfoldable pub attempt_of : {F A : Type 0} → Action F A → Action F (Result A)
attempt_of m w = (ok (m w).0, (m w).1)

abbrev refuse_with : {F : Type 0} → Error → Action F (Unit {0})
refuse_with e w = (err e, record w { trouble = true })

module _ {F : Type 0} where
  abbrev next_answer : List (Option Error) → Action F (Unit {0})
  next_answer [] w = (ok tt, w)
  next_answer (none ∷ fs) w = (ok tt, record w { faults = fs })
  next_answer (some e ∷ fs) w = refuse_with e (record w { faults = fs })

  -- one statement: SQLite's answer to it
  unfoldable pub statement : Action F (Unit {0})
  statement w = next_answer w.faults w

  abbrev pub change : (World F → World F) → Action F (Unit {0})
  change g w = (ok tt, g w)

  abbrev pub refuse : Error → Action F (Unit {0})
  refuse e = refuse_with e

  -- time.Now().UTC()
  unfoldable pub now : Platform → Action F ℕ
  now p w = (ok (p.instant w.asked), record w { asked = w.asked + 1 })

  -- the answer of a call that does not touch the database
  abbrev pub returned : {A : Type 0} → Result A → Action F A
  returned r w = (r, w)

  -- what the surroundings answer, by the number of instants and ids that were given out before
  unfoldable pub asks : {A : Type 0} → (ℕ → Result A) → Action F A
  asks g w = (g w.asked, w)

  -- newID
  unfoldable pub new_id : Platform → String → Action F String
  new_id p prefix w = (ok (p.fresh_id prefix w.asked), record w { asked = w.asked + 1 })
