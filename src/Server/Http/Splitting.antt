-- ===== src/Server/Http/Splitting.antt =====
-- An outside whose `Split` cuts at the first place where the separator stands.
use html_terminal.Prelude.{
  ℕ, ◌≡◌, ◌≢◌, refl, ap, Option, none, some, List, [], ◌∷◌, ◌++◌, Text, All, ◌==◌, if◌then◌else◌,
  eq-true, eq-false,
}
use html_terminal.Decimal.{value_from, value-decimal}
use html_terminal.Server.Http.{Outside}
use html_terminal.Server.Http.Downloads.{IsLawful}

-- What is behind the prefix `sep`, if the text starts with it.
abbrev behind : Text → Text → Option Text
behind [] t = some t
behind (x ∷ sep) [] = none
behind (x ∷ sep) (y ∷ t) = if y == x then behind sep t else none

behind-append : (sep t : Text) → behind sep (sep ++ t) ≡ some t
behind-append [] t = refl
behind-append (x ∷ sep) t = rw (eq-true x) (behind-append sep t)

abbrev cut_at : ℕ → Option Text → List Text → List Text
cut_at c (some after) rest = [] ∷ after ∷ []
cut_at c none [] = []
cut_at c none (before ∷ rest) = (c ∷ before) ∷ rest

abbrev pub cut : Text → Text → ℕ → List Text
cut [] sep n = [] ∷ []
cut (c ∷ t) sep n = cut_at c (behind sep (c ∷ t)) (cut t sep n)

cut-append :
    (before after sep : Text) (first : ℕ)
    → All (λ c. c ≢ first) before
    → cut (before ++ ((first ∷ sep) ++ after)) (first ∷ sep) 2 ≡ before ∷ after ∷ []
cut-append [] after sep first h = rw (behind-append (first ∷ sep) after) refl
cut-append (c ∷ before) after sep first h =
    rw (eq-false c first h.0, cut-append before after sep first h.1) refl

-- Files by their names, each of the type `type`.
abbrev pub plain : List (Text × Text) → Text → Outside
plain resources type = record {
  resources = resources;
  find_mime = λ name. type;
  split = cut;
  to_int = λ t. some (value_from 0 t);
}

pub plain-IsLawful :
    (resources : List (Text × Text)) (type : Text) → IsLawful (plain resources type)
plain-IsLawful resources type = record {
  split_once = λ before after sep first h g plain. cut-append before after sep first plain;
  to_int-decimal = λ n small. ap some (value-decimal n);
}
