-- ===== src/Prelude/Action.antt =====
-- Code that changes a state and may throw: `none` is the exception, which leaves the changes made
-- before it.
use mathlib.Core.Path.{◌≡◌, refl, ap}
use mathlib.Core.Option.{Option, none, some}

abbrev pub Action : Type 0 → Type 0 → Type 0
Action S A = S → Option A × S

infixl 5 ◌>>=◌
abbrev pub ◌>>=◌ : {S A B : Type 0} → Action S A → (A → Action S B) → Action S B
◌>>=◌ m f s = let (r, s') = m s in elim r [ none ↦ (none, s') | some a ↦ f a s' ]

-- A conversion that may throw, and a call that does not throw.
abbrev pub lift : {S A : Type 0} → Option A → Action S A
lift r s = (r, s)

abbrev pub call : {S A : Type 0} → (S → A × S) → Action S A
call f s = let (a, s') = f s in (some a, s')

-- A call that returns is followed by the rest, in the state that it left.
pub >>=-some :
    {S A B : Type 0} (m : Action S A) (f : A → Action S B) (s : S) (a : A)
    → (m s).0 ≡ some a
    → (m >>= f) s ≡ f a (m s).1
>>=-some {S} {A} {B} m f s a e =
    ap
      (λ (r : Option A). elim r as (λ _. Option B × S) [
        | none ↦ (none, (m s).1)
        | some a ↦ f a (m s).1
      ])
      e

bind_inv :
    {S A B : Type 0} (r : Option A) (t : S) (f : A → Action S B) (b : B) (s' : S)
    → (elim r as (λ _. Option B × S) [ none ↦ (none, t) | some a ↦ f a t ]) ≡ (some b, s')
    → (a : A) × (r ≡ some a) × (f a t ≡ (some b, s'))
bind_inv none t f b s' e = absurd (cc)
bind_inv (some a) t f b s' e = (a, refl, e)

-- Calls that return together both return.
pub >>=-inv :
    {S A B : Type 0} (m : Action S A) (f : A → Action S B) (s : S) (b : B) (s' : S)
    → (m >>= f) s ≡ (some b, s')
    → (a : A) × ((m s).0 ≡ some a) × (f a (m s).1 ≡ (some b, s'))
>>=-inv m f s b s' e = bind_inv (m s).0 (m s).1 f b s' e
