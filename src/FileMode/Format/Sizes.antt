-- ===== src/FileMode/Format/Sizes.antt =====
-- The sizes that webapp/filemode.node.js prints, as numbers with a unit.
use html_terminal.Prelude.{ℕ, ◌+◌, ◌*◌, ◌≤◌, ◌<◌, ◌≡◌, ◌++◌, Text, codes, arith, ◌⊎◌, inl, inr}
use html_terminal.Decimal.{decimal}
use html_terminal.FileMode.Format.{hundredths, to_fixed, size_text, kb, mb, gb}

≤-or-< : (a b : ℕ) → (a ≤ b) ⊎ (b < a)
≤-or-< a b = omega arith

-- `n` hundredths of `unit` are `size`, to half a hundredth.
abbrev pub IsNear : ℕ → ℕ → ℕ → Type 0
IsNear size unit n = (2 * unit * n ≤ 200 * size + unit) × (200 * size < 2 * unit * n + unit)

module _ (size : ℕ) where
  in_bytes : size ≤ kb → size_text size ≡ decimal size
  unfolding size_text
  in_bytes h = ground arith

  in_kb : kb < size → size ≤ mb → size_text size ≡ to_fixed size kb ++ codes " KB"
  unfolding size_text
  in_kb lo hi = ground arith

  in_mb : mb < size → size ≤ gb → size_text size ≡ to_fixed size mb ++ codes " MB"
  unfolding size_text
  in_mb lo hi = ground arith

  in_gb : gb < size → size_text size ≡ to_fixed size gb ++ codes " GB"
  unfolding size_text
  in_gb lo = ground arith

  IsNear-kb :
      kb < size
      → size ≤ mb
      → IsNear size kb (hundredths size kb)
        × (100 ≤ hundredths size kb)
        × (hundredths size kb ≤ 102400)
  unfolding hundredths
  IsNear-kb lo hi = omega arith

  IsNear-mb :
      mb < size
      → size ≤ gb
      → IsNear size mb (hundredths size mb)
        × (100 ≤ hundredths size mb)
        × (hundredths size mb ≤ 102400)
  unfolding hundredths
  IsNear-mb lo hi = omega arith

  IsNear-gb : gb < size → IsNear size gb (hundredths size gb) × (100 ≤ hundredths size gb)
  unfolding hundredths
  IsNear-gb lo = omega arith

-- The size is printed with the unit, right to half a hundredth, and as 1.00 or more.
abbrev pub IsPrinted : ℕ → ℕ → Text → Type 0
IsPrinted size unit name =
    let n = hundredths size unit in
    (size_text size ≡ to_fixed size unit ++ name) × IsNear size unit n × (100 ≤ n)

-- A size up to 1024 is printed in bytes, any other in the largest unit that it exceeds, KB, MB or GB. A
-- number printed with one of these is at least 1.00 and right to half a hundredth, and in KB and MB at
-- most 1024.00.
pub size_text_units :
    (size : ℕ)
    → ((size ≤ kb) × (size_text size ≡ decimal size))
      ⊎ (((kb < size)
            × (size ≤ mb)
            × IsPrinted size kb (codes " KB")
            × (hundredths size kb ≤ 102400))
          ⊎ (((mb < size)
                × (size ≤ gb)
                × IsPrinted size mb (codes " MB")
                × (hundredths size mb ≤ 102400))
              ⊎ ((gb < size) × IsPrinted size gb (codes " GB"))))
size_text_units size = elim (≤-or-< size kb) [
  | inl hi ↦ inl (hi, in_bytes size hi)
  | inr lo ↦ inr (elim (≤-or-< size mb) [
    | inl hi ↦
        let (near, low, high) = IsNear-kb size lo hi in
        inl (lo, hi, (in_kb size lo hi, near, low), high)
    | inr lo' ↦ inr (elim (≤-or-< size gb) [
      | inl hi ↦
          let (near, low, high) = IsNear-mb size lo' hi in
          inl (lo', hi, (in_mb size lo' hi, near, low), high)
      | inr lo'' ↦ let (near, low) = IsNear-gb size lo'' in inr (lo'', (in_gb size lo'', near, low))
    ])
  ])
]
