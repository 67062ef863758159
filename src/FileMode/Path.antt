-- ===== src/FileMode/Path.antt =====
-- The paths that `onClicked` of webapp/filemode.node.js computes.
pub mod Navigation
use html_terminal.Prelude.{
  ℕ, ◌+◌, Bool, true, false, Option, none, some, List, [], ◌∷◌, ◌++◌, Text, codes, same_text, take,
  ◌==◌, ◌||◌, if◌then◌else◌, M, raise, pure, type_error, drop,
}
use html_terminal.Decimal.{decimal}

abbrev pub slash : ℕ
slash = b'/'

abbrev after : Bool → Option ℕ → Option ℕ
after here (some i) = some (i + 1)
after true none = some 0
after false none = none

-- `s.lastIndexOf(c)`, with none for -1.
unfoldable pub last_index_of : (ℕ → Bool) → Text → Option ℕ
last_index_of p [] = none
last_index_of p (c ∷ s) = after (p c) (last_index_of p s)

-- `s.substring(0, i)`: a negative `i` counts as 0.
abbrev pub substring_to : Option ℕ → Text → Text
substring_to none s = []
substring_to (some i) s = take i s

abbrev pub or_root : Text → Text
or_root [] = codes "/"
or_root (c ∷ s) = c ∷ s

-- The target of "..".
unfoldable pub up_path : Text → Text
unfolding last_index_of
up_path path = or_root (substring_to (last_index_of (λ c. c == slash) path) path)

-- The target of an entry.
unfoldable pub child_path : Text → Text → Text
child_path path name =
    if same_text path (codes "/") then codes "/" ++ name else path ++ (codes "/" ++ name)

-- The choice of `target`: a null path has no `substring`, and is added to a text as "null".
unfoldable pub click_target : {S : Type 0} → Option Text → Text → Text → M S Text
unfolding up_path child_path
click_target none name display_name =
    if same_text display_name (codes "..")
    then raise type_error
    else pure (child_path (codes "null") name)
click_target (some path) name display_name =
    pure (if same_text display_name (codes "..") then up_path path else child_path path name)

-- The code units that `.` does not match in a regular expression.
abbrev pub is_line_end : ℕ → Bool
is_line_end c = c == 10 || c == 13 || c == 0x2028 || c == 0x2029

-- The units that `[\\/]` matches.
abbrev pub is_slash : ℕ → Bool
is_slash c = c == slash || c == 92

unfoldable pub first_line : Text → Text
first_line [] = []
first_line (c ∷ s) = let rest = first_line s in if is_line_end c then [] else c ∷ rest

abbrev pub drop_to : Option ℕ → Text → Text
drop_to none s = s
drop_to (some i) s = drop (i + 1) s

-- `target.replace(/^.*[\\/]/, '')`
unfoldable pub download_name : Text → Text
unfolding last_index_of first_line
download_name target = drop_to (last_index_of is_slash (first_line target)) target

-- `'download?' + id + "&" + target`
unfoldable pub href_of : ℕ → Text → Text
unfolding decimal
href_of id target = codes "download?" ++ (decimal id ++ (codes "&" ++ target))
