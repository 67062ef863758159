-- ===== src/Prelude/Effect.antt =====
-- What a JavaScript call does: it returns or throws, and what it wrote before stays written.
use mathlib.Core.Path.{◌≡◌, ap}
use mathlib.Core.Bool.{Bool, true, false}
use mathlib.Core.Option.{Option, none, some}
use mathlib.Core.List.{List, [], ◌∷◌}

-- `type_error`: a property of `null` or `undefined` is read, or `null` is given for a node.
-- `not_found`: `removeChild` of a node that is no child. `invalid_state`: a socket that connects.
pub data JsError : Type 0 where
  type_error not_found invalid_state : JsError

pub data Outcome (A : Type 0) : Type 0 where
  ok : A → Outcome A
  throws : JsError → Outcome A

abbrev pub M : Type 0 → Type 0 → Type 0
M S A = S → Outcome A × S

module _ {S A : Type 0} where
  abbrev pub pure : A → M S A
  pure a s = (ok a, s)

  abbrev pub raise : JsError → M S A
  raise e s = (throws e, s)

  abbrev pub gets : (S → A) → M S A
  gets f s = (ok (f s), s)

  -- A value whose property is read.
  abbrev pub require : Option A → M S A
  require none = raise type_error
  require (some a) = pure a

infixl 5 ◌>>=◌ ◌>>◌
abbrev pub ◌>>=◌ : {S A B : Type 0} → M S A → (A → M S B) → M S B
◌>>=◌ m f s = let (r, s') = m s in elim r [ ok a ↦ f a s' | throws e ↦ raise e s' ]

abbrev pub ◌>>◌ : {S A B : Type 0} → M S A → M S B → M S B
m >> k = m >>= λ _. k

abbrev pub modify : {S : Type 0} → (S → S) → M S (Unit {0})
modify f s = (ok tt, f s)

abbrev pub skip : {S : Type 0} → M S (Unit {0})
skip s = (ok tt, s)

-- `if(c) { m }`
abbrev pub when : {S : Type 0} → Bool → M S (Unit {0}) → M S (Unit {0})
when false m = skip
when true m = m

-- `xs.forEach(f)`
abbrev pub for_each : {S A : Type 0} → List A → (A → M S (Unit {0})) → M S (Unit {0})
for_each [] f = skip
for_each (x ∷ xs) f = f x >> for_each xs f

-- The rest of a call, given how its first part ended.
abbrev then_run : {S A B : Type 0} → (A → M S B) → Outcome A × S → Outcome B × S
then_run f r = elim r.0 [ ok a ↦ f a r.1 | throws e ↦ raise e r.1 ]

-- After a call that returns, the rest runs in the state that it left.
pub >>=-ok :
    {S A B : Type 0} (m : M S A) (f : A → M S B) {a : A} {s s' : S}
    → m s ≡ (ok a, s')
    → (m >>= f) s ≡ f a s'
>>=-ok m f e = ap (then_run f) e

-- After a call that throws, the rest does not run.
pub >>=-throws :
    {S A B : Type 0} (m : M S A) (f : A → M S B) {x : JsError} {s s' : S}
    → m s ≡ (throws x, s')
    → (m >>= f) s ≡ (throws x, s')
>>=-throws m f e = ap (then_run f) e
