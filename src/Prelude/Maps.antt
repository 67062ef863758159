-- ===== src/Prelude/Maps.antt =====
-- A JavaScript `Map` keyed by numbers: `set` keeps the place of a key that is there.
use Prim.Native.Nat.{ℕ}
use mathlib.Core.Path.{◌≡◌, refl}
use mathlib.Core.Logic.{◌≢◌}
use mathlib.Core.Option.{Option, none, some}
use mathlib.Core.List.{List, [], ◌∷◌}
use native.Mathlib.Omega.{arith}
use html_terminal.Prelude.Tests.{◌==◌, if◌then◌else◌}

abbrev pub Dict : Type 0 → Type 0
Dict B = List (ℕ × B)

module _ {B : Type 0} where
  -- `map.get(k)`
  abbrev pub lookup : ℕ → Dict B → Option B
  lookup i [] = none
  lookup i ((j, v) ∷ m) = if i == j then some v else lookup i m

  -- `map.set(k, v)`
  abbrev pub insert : ℕ → B → Dict B → Dict B
  insert i v [] = (i, v) ∷ []
  insert i v (p ∷ m) = if i == p.0 then (i, v) ∷ m else p ∷ insert i v m

  -- `map.delete(k)`
  abbrev pub erase : ℕ → Dict B → Dict B
  erase i [] = []
  erase i (p ∷ m) = if i == p.0 then m else p ∷ erase i m

  -- No key stands twice.
  abbrev pub HasUniqueKeys : Dict B → Type 0
  HasUniqueKeys [] = Unit
  HasUniqueKeys ((i, v) ∷ m) = (lookup i m ≡ none) × HasUniqueKeys m

  pub lookup-insert :
      (j i : ℕ) (v : B) (m : Dict B)
      → lookup j (insert i v m) ≡ (if j == i then some v else lookup j m)
  lookup-insert j i v [] = ground arith
  lookup-insert j i v (p ∷ m) = ground (arith, lookup-insert j i v m)

  pub lookup-erase_ne : (j i : ℕ) (m : Dict B) → j ≢ i → lookup j (erase i m) ≡ lookup j m
  lookup-erase_ne j i [] h = refl
  lookup-erase_ne j i (p ∷ m) h = ground (arith, lookup-erase_ne j i m h)

  pub lookup-erase_self : (i : ℕ) (m : Dict B) → HasUniqueKeys m → lookup i (erase i m) ≡ none
  lookup-erase_self i [] h = refl
  lookup-erase_self i (p ∷ m) h = ground (arith, lookup-erase_self i m h.1)

  pub erase-HasUniqueKeys : (i : ℕ) (m : Dict B) → HasUniqueKeys m → HasUniqueKeys (erase i m)
  erase-HasUniqueKeys i [] h = tt
  erase-HasUniqueKeys i (p ∷ m) h =
      ground (arith, erase-HasUniqueKeys i m h.1, lookup-erase_ne p.0 i m)

  pub insert-HasUniqueKeys :
      (i : ℕ) (v : B) (m : Dict B) → HasUniqueKeys m → HasUniqueKeys (insert i v m)
  insert-HasUniqueKeys i v [] h = (refl, tt)
  insert-HasUniqueKeys i v (p ∷ m) h =
      ground (arith, insert-HasUniqueKeys i v m h.1, lookup-insert p.0 i v m)
