-- ===== src/FileMode/Path/Navigation.antt =====
-- The way down and up of the directory browser of webapp/filemode.node.js, and names of downloads.
use Prim.Native.Nat.add
use html_terminal.Prelude.{
  ℕ, ◌+◌, ◌≡◌, ◌≢◌, refl, Bool, true, false, none, some, [], ◌∷◌, ◌++◌, Text, codes, same_text,
  drop, length, ◌==◌, arith, Bool-cases, inl, inr, take-append, ap, ◌∙◌, sym, same_text-eq,
}
use html_terminal.FileMode.Path.{
  slash, or_root, substring_to, is_slash, is_line_end, drop_to, last_index_of, up_path, child_path,
  download_name, first_line,
}

-- No unit of the text passes the test.
abbrev pub Lacks : (ℕ → Bool) → Text → Type 0
Lacks p [] = Unit
Lacks p (c ∷ s) = (p c ≡ false) × Lacks p s

last_index_of-Lacks : (p : ℕ → Bool) (s : Text) → Lacks p s → last_index_of p s ≡ none
unfolding last_index_of
last_index_of-Lacks p [] h = refl
last_index_of-Lacks p (c ∷ s) h = rw (last_index_of-Lacks p s h.1, h.0)

-- The last place that passes stands before a text that lacks such units.
last_index_of-mid :
    (p : ℕ → Bool) (a : Text) (c : ℕ) (s : Text)
    → p c ≡ true
    → Lacks p s
    → last_index_of p (a ++ (c ∷ s)) ≡ some (length a)
unfolding last_index_of
last_index_of-mid p [] c s e h = rw (last_index_of-Lacks p s h, e)
last_index_of-mid p (b ∷ a) c s e h = rw (last_index_of-mid p a c s e h) (ground arith)

up_path-join :
    (path name : Text)
    → Lacks (λ c. c == slash) name
    → up_path (path ++ (slash ∷ name)) ≡ or_root path
unfolding up_path
up_path-join path name l =
    ap (λ i. or_root (substring_to i (path ++ (slash ∷ name))))
      (last_index_of-mid (λ c. c == slash) path slash name refl l)
    ∙ ap or_root (take-append path (slash ∷ name))

or_root-ne_nil : (path : Text) → path ≢ [] → or_root path ≡ path
or_root-ne_nil [] h = absurd (h refl)
or_root-ne_nil (c ∷ path) h = refl

-- A step into an entry whose name has no slash, and then "..", leads back to the directory, the
-- root included, if its path is not empty.
pub up_path-child_path :
    (path name : Text)
    → path ≢ []
    → Lacks (λ c. c == slash) name
    → up_path (child_path path name) ≡ path
unfolding child_path
up_path-child_path path name h l = elim (Bool-cases (same_text path (codes "/"))) [
  | inl root ↦ rw root (up_path-join [] name l ∙ sym (same_text-eq path (codes "/") root))
  | inr deep ↦ rw deep (up_path-join path name l ∙ or_root-ne_nil path h)
]

first_line-one : (s : Text) → Lacks is_line_end s → first_line s ≡ s
unfolding first_line
first_line-one [] h = refl
first_line-one (c ∷ s) h = rw (first_line-one s h.1, h.0) refl

Lacks-append : (p : ℕ → Bool) (s t : Text) → Lacks p s → Lacks p t → Lacks p (s ++ t)
Lacks-append p [] t h k = k
Lacks-append p (c ∷ s) t h k = (h.0, Lacks-append p s t h.1 k)

drop-append : (s : Text) (c : ℕ) (t : Text) → drop (length s + 1) (s ++ (c ∷ t)) ≡ t
drop-append [] c t = refl
drop-append (b ∷ s) c t = rw add.suc (drop-append s c t)

download_name-join :
    (path name : Text)
    → Lacks is_line_end path
    → Lacks is_line_end name
    → Lacks is_slash name
    → download_name (path ++ (slash ∷ name)) ≡ name
unfolding download_name
download_name-join path name lp ln l =
    let whole = path ++ (slash ∷ name) in
    let line = first_line-one whole (Lacks-append is_line_end path (slash ∷ name) lp (refl, ln)) in
    ap (λ s. drop_to (last_index_of is_slash s) whole) line
    ∙ ap (λ i. drop_to i whole) (last_index_of-mid is_slash path slash name refl l)
    ∙ drop-append path slash name

-- A file is saved under its own name: what is cut from the path is the directory. The path holds no
-- line end, and the name no slash and no backslash either.
pub download_name-child_path :
    (path name : Text)
    → Lacks is_line_end path
    → Lacks is_line_end name
    → Lacks is_slash name
    → download_name (child_path path name) ≡ name
unfolding child_path
download_name-child_path path name lp ln l = elim (Bool-cases (same_text path (codes "/"))) [
  | inl root ↦ rw root (download_name-join [] name tt ln l)
  | inr deep ↦ rw deep (download_name-join path name lp ln l)
]
