-- ===== src/Loader/Order.antt =====
-- The order in which webapp/loader.js includes the scripts.
use Prim.Native.Nat.add
use native.Mathlib.Nat.{add-zero, add-suc, suc-add}
use html_terminal.Prelude.{
  ap, ◌∙◌, ◌-◌, ℕ, zero, suc, ◌+◌, ◌<◌, ◌≡◌, refl, String, some, List, [], ◌∷◌, ◌++◌, length, take,
  get_elem?, arith,
}
use html_terminal.Loader.{Loader, new_loader, on_script_loaded, after_loads}

take-suc :
    (n : ℕ) (names : List String) (name : String)
    → get_elem? names n ≡ some name
    → take (suc n) names ≡ take n names ++ (name ∷ [])
take-suc zero [] name h = cc
take-suc zero (x ∷ names) name h = ground arith
take-suc (suc n) [] name h = cc
take-suc (suc n) (x ∷ names) name h = ground (arith, take-suc n names name h)

get_elem?-lt :
    (n : ℕ) (names : List String)
    → n < length names
    → (name : String) × (get_elem? names n ≡ some name)
get_elem?-lt n [] h = elim h [ ]
get_elem?-lt zero (x ∷ names) h = (x, refl)
get_elem?-lt (suc n) (x ∷ names) h = get_elem?-lt n names (omega arith)

-- After `n` events: the first `n + 1` scripts are included, and the app is not started.
abbrev pub IsLoading : List String → ℕ → Loader → Type 0
IsLoading names n l =
    (l.scripts ≡ names) × (l.load_count ≡ n) × (l.included ≡ take (suc n) names) × (l.inits ≡ 0)

new_loader-IsLoading :
    (names : List String) → 0 < length names → IsLoading names 0 (new_loader names)
unfolding new_loader
new_loader-IsLoading [] h = elim h [ ]
new_loader-IsLoading (x ∷ names) h = (refl, refl, refl, refl)

load-IsLoading :
    (names : List String) (n : ℕ) (l : Loader)
    → suc n < length names
    → IsLoading names n l
    → IsLoading names (suc n) (on_script_loaded l)
unfolding on_script_loaded
load-IsLoading names n l lt (s, c, i, z) =
    let (name, e) = get_elem?-lt (suc n) names lt in
    ground (arith, e, take-suc (suc n) names name e)

after_loads-IsLoading :
    (n k : ℕ) (names : List String) (l : Loader)
    → k + n < length names
    → IsLoading names k l
    → IsLoading names (k + n) (after_loads n l)
unfolding after_loads
after_loads-IsLoading zero k names l lt h = rw add-zero h
after_loads-IsLoading (suc n) k names l lt h =
    rw (add-suc, ← suc-add)
      (after_loads-IsLoading n (suc k) names (on_script_loaded l) (omega arith)
        (load-IsLoading names k l (omega arith) h))

after_loads-add : (n k : ℕ) (l : Loader) → after_loads (n + k) l ≡ after_loads k (after_loads n l)
unfolding after_loads
after_loads-add zero k l = rw add.zero
after_loads-add (suc n) k l = rw add.suc (after_loads-add n k (on_script_loaded l))

take-length : (names : List String) → take (length names) names ≡ names
take-length [] = refl
take-length (x ∷ names) = ap (λ r. x ∷ r) (take-length names)

last_load :
    (names : List String) (n : ℕ) (l : Loader)
    → suc n ≡ length names
    → IsLoading names n l
    → ((on_script_loaded l).included ≡ names) × ((on_script_loaded l).inits ≡ 1)
unfolding on_script_loaded
last_load names n l e (s, c, i, z) =
    let all : take (suc n) names ≡ names = rw e (take-length names) in ground (arith, all)

-- The scripts are included in the order of the list, one at a time: after `n` load events, fewer
-- than there are scripts, the first `n + 1` are included and the app is not started. After one
-- event for each script all are included, each once, and the app is started once.
pub new_loader-loads :
    (names : List String) (n : ℕ)
    → n < length names
    → let l = after_loads n (new_loader names) in
      let end = after_loads (length names) (new_loader names) in
      (l.included ≡ take (suc n) names) × (l.inits ≡ 0) × (end.included ≡ names) × (end.inits ≡ 1)
unfolding after_loads
new_loader-loads names n lt =
    let start = new_loader-IsLoading names (omega arith) in
    let (_, _, part, none_started) =
      rw add.zero at (after_loads-IsLoading n 0 names (new_loader names) (omega arith) start) in
    let m = length names - 1 in
    let last =
      rw add.zero at (after_loads-IsLoading m 0 names (new_loader names) (omega arith) start) in
    let whole : length names ≡ m + 1 = omega arith in
    let split : after_loads (length names) (new_loader names)
        ≡ on_script_loaded (after_loads m (new_loader names)) =
      ap (λ k. after_loads k (new_loader names)) whole ∙ after_loads-add m 1 (new_loader names) in
    let (all, started) = last_load names m (after_loads m (new_loader names)) (omega arith) last in
    (part, none_started, ap (λ l. l.included) split ∙ all, ap (λ l. l.inits) split ∙ started)
