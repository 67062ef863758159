-- ===== src/FileMode/Format.antt =====
-- The texts of a row: sizes and dates of webapp/filemode.node.js.
pub mod Sizes
use html_terminal.Prelude.{
  ℕ, ◌+◌, ◌*◌, ◌/◌, ◌%◌, ◌^◌, Bool, true, false, List, [], ◌∷◌, ◌++◌, Text, codes, ltb, leb, ◌==◌,
  ◌&&◌, if◌then◌else◌,
}
use html_terminal.Decimal.{decimal, digit}
use html_terminal.Ui.{LocalTime}

-- The integer that `(size / unit).toFixed(2)` prints: the hundredths nearest to the quotient, the
-- larger of two. A division of a size by a power of 2 is exact.
unfoldable pub hundredths : ℕ → ℕ → ℕ
hundredths size unit = (200 * size + unit) / (2 * unit)

abbrev pub two_digits : ℕ → Text
two_digits n = digit (n / 10) ∷ digit (n % 10) ∷ []

-- `(size / unit).toFixed(2)`
unfoldable pub to_fixed : ℕ → ℕ → Text
unfolding hundredths decimal
to_fixed size unit =
    let n = hundredths size unit in decimal (n / 100) ++ (codes "." ++ two_digits (n % 100))

abbrev pub kb : ℕ
kb = 1024 ^ 1

abbrev pub mb : ℕ
mb = 1024 ^ 2

abbrev pub gb : ℕ
gb = 1024 ^ 3

-- `size_val + size_ext`
unfoldable pub size_text : ℕ → Text
unfolding to_fixed decimal
size_text size =
    if ltb kb size && leb size mb
    then to_fixed size kb ++ codes " KB"
    else if ltb mb size && leb size gb
    then to_fixed size mb ++ codes " MB"
    else if ltb gb size
    then to_fixed size gb ++ codes " GB"
    else decimal size

-- `n < 10 ? "0" + n : n`, in a text.
unfoldable pub pad : ℕ → Text
unfolding decimal
pad n = if ltb n 10 then codes "0" ++ decimal n else decimal n

-- `timestampToString(timestamp)`
unfoldable pub timestamp_to_string : (ℕ → LocalTime) → ℕ → Text
unfolding pad
timestamp_to_string local_time timestamp =
    let t = local_time timestamp in
    if timestamp == 0
    then []
    else t.date
      ++ (codes "  "
          ++ (pad t.hours ++ (codes ":" ++ (pad t.minutes ++ (codes ":" ++ pad t.seconds)))))
