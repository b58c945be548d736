-- ===== src/Os/Returns.antt =====
-- Total correctness of a statement: defined behaviour, and a postcondition on its result and world.
use mathlib.Core.Path.{◌≡◌, refl}
use strongly_typed_sockets.Os.{World, Run, ok, undefined, Cmd, and_then}

pub data Returns {A : Type 0} (P : A → World → Type 0) : Run A → Type 0 where
  returns : {a : A} {w : World} → P a w → Returns P (ok a w)

module _ {A : Type 0} {P : A → World → Type 0} where
  pub Returns-bind :
      {B : Type 0} {Q : B → World → Type 0} {r : Run A} {k : A → Cmd B}
      → Returns P r
      → ((a : A) (w : World) → P a w → Returns Q (k a w))
      → Returns Q (and_then r k)
  Returns-bind (returns p) next = next _ _ p

  pub mono :
      {Q : A → World → Type 0} {r : Run A}
      → Returns P r
      → ((a : A) (w : World) → P a w → Q a w)
      → Returns Q r
  mono (returns p) weaken = returns (weaken _ _ p)

pub Returns-both :
    {A : Type 0} {P Q : A → World → Type 0} {r : Run A}
    → Returns P r
    → Returns Q r
    → Returns (λ a w. P a w × Q a w) r
Returns-both (returns p) (returns q) = returns (p, q)

-- Partial correctness, for what holds of a statement wherever it is defined.
pub data Partial {A : Type 0} (P : A → World → Type 0) : Run A → Type 0 where
  defined : {a : A} {w : World} → P a w → Partial P (ok a w)
  not_defined : Partial P undefined

module _ {A : Type 0} {P : A → World → Type 0} where
  pub Partial-bind :
      {B : Type 0} {Q : B → World → Type 0} {r : Run A} {k : A → Cmd B}
      → Partial P r
      → ((a : A) (w : World) → P a w → Partial Q (k a w))
      → Partial Q (and_then r k)
  Partial-bind (defined p) next = next _ _ p
  Partial-bind not_defined next = not_defined

  pub Partial-mono :
      {Q : A → World → Type 0} {r : Run A}
      → Partial P r
      → ((a : A) (w : World) → P a w → Q a w)
      → Partial Q r
  Partial-mono (defined p) weaken = defined (weaken _ _ p)
  Partial-mono not_defined weaken = not_defined

  -- A statement that is defined has the properties that it has wherever it is defined.
  pub Returns-and :
      {Q : A → World → Type 0} {r : Run A}
      → Returns P r
      → Partial Q r
      → Returns (λ a w. P a w × Q a w) r
  Returns-and (returns p) (defined q) = returns (p, q)

pub Partial-any : {A : Type 0} (r : Run A) → Partial (λ _ _. Unit {0}) r
Partial-any (ok a w) = defined tt
Partial-any undefined = not_defined

abbrev Holds : {A : Type 0} → (A → World → Type 0) → Run A → Type 0
Holds P (ok a w) = P a w
Holds P undefined = Unit {0}

Returns-Holds : {A : Type 0} {P : A → World → Type 0} {r : Run A} → Returns P r → Holds P r
Returns-Holds (returns p) = p

-- What is known of a run that gave `a`.
pub Returns-ok :
    {A : Type 0} {P : A → World → Type 0} {r : Run A} {a : A} {w : World}
    → Returns P r
    → r ≡ ok a w
    → P a w
Returns-ok {P = P} {r = r} h e = rw e at (Returns-Holds {P = P} {r = r} h)

Partial-Holds : {A : Type 0} {P : A → World → Type 0} {r : Run A} → Partial P r → Holds P r
Partial-Holds (defined p) = p
Partial-Holds not_defined = tt

pub Partial-ok :
    {A : Type 0} {P : A → World → Type 0} {r : Run A} {a : A} {w : World}
    → Partial P r
    → r ≡ ok a w
    → P a w
Partial-ok {P = P} {r = r} h e = rw e at (Partial-Holds {P = P} {r = r} h)

-- The two laws of sequencing that the equations between statements need.
module _ {A B : Type 0} where
  pub and_then-ap :
      (r : Run A) (k l : A → Cmd B)
      → ((a : A) (w : World) → k a w ≡ l a w)
      → and_then r k ≡ and_then r l
  and_then-ap (ok a w) k l h = h a w
  and_then-ap undefined k l h = refl

pub and_then_assoc :
    {A B C : Type 0} (r : Run A) (k : A → Cmd B) (l : B → Cmd C)
    → and_then (and_then r k) l ≡ and_then r (λ a w. and_then (k a w) l)
and_then_assoc (ok a w) k l = refl
and_then_assoc undefined k l = refl

-- The value that a statement gives.
pub Returns-value :
    {A : Type 0} {P : A → World → Type 0} {r : Run A}
    → Returns P r
    → (a : A) × (w : World) × (r ≡ ok a w) × P a w
Returns-value (returns p) = (_, _, refl, p)
