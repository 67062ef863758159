-- ===== src/Wire/Memories.antt =====
-- A memory whose integers have their lowest byte first.
use html_terminal.Prelude.{
  ℕ, zero, suc, ◌+◌, ◌*◌, ◌/◌, ◌%◌, ◌^◌, ◌≤◌, ◌<◌, ◌≡◌, refl, sym, ap, ◌∙◌, none, some, Option,
  List, [], ◌∷◌, ◌++◌, length, take, drop, leb, if◌then◌else◌, arith,
}
use native.Mathlib.Nat.{
  mul_comm, mul_assoc, pow-suc, one-le-pow, mod-lt, mod-eq_of_lt, div-add-mod,
  add-mul-mod_self_left,
}
use html_terminal.Wire.{Memory, IsLawful}

abbrev pub low_first : ℕ → ℕ → List ℕ
low_first zero x = []
low_first (suc n) x = (x % 256) ∷ low_first n (x / 256)

abbrev pub read_low_first : List ℕ → ℕ
read_low_first [] = 0
read_low_first (b ∷ bs) = b + 256 * read_low_first bs

length-low_first : (n x : ℕ) → length (low_first n x) ≡ n
length-low_first zero x = refl
length-low_first (suc n) x = omega (arith, length-low_first n (x / 256))

mod_by_parts : (x p : ℕ) → 1 ≤ p → x % 256 + 256 * (x / 256 % p) ≡ x % (p * 256)
mod_by_parts x p h =
    let q = x / 256 / p in
    let v = x % 256 + 256 * (x / 256 % p) in
    let product : p * 256 * q ≡ 256 * (p * q) =
      ap (λ m. m * q) (mul_comm p 256) ∙ mul_assoc 256 p q in
    let whole : v + p * 256 * q ≡ x = omega (arith, product, div-add-mod (x / 256) p) in
    let small : v < p * 256 = omega (arith, mod-lt (x / 256) h) in
    sym (mod-eq_of_lt small)
    ∙ sym (add-mul-mod_self_left v (p * 256) q)
    ∙ ap (λ m. m % (p * 256)) whole

read_low_first-low_first : (n x : ℕ) → read_low_first (low_first n x) ≡ x % 256 ^ n
read_low_first-low_first zero x = omega arith
read_low_first-low_first (suc n) x = rw (read_low_first-low_first n (x / 256)) (
    mod_by_parts x (256 ^ n) (one-le-pow n 256 (omega arith))
    ∙ ap (λ m. x % m) (sym (pow-suc 256 n)))

abbrev pub plain_copy : List ℕ → ℕ → ℕ → Option (List ℕ)
plain_copy bytes offset n =
    if leb (offset + n) (length bytes) then some (take n (drop offset bytes)) else none

-- `Data` as its bytes.
abbrev pub plain : Memory
plain = record {
  Data = List ℕ;
  make_data = λ bytes. bytes;
  add = λ bytes d. d ++ bytes;
  copy_to = plain_copy;
  set_offset = drop;
  add_offset = drop;
  to_string = λ d. d;
  bytes_of = low_first;
  integer = read_low_first;
}

pub plain-IsLawful : IsLawful plain
plain-IsLawful = record {
  to_string-make_data = λ bytes. refl;
  to_string-add = λ bytes d. refl;
  copy_to-make_data = λ bytes offset n h. ground arith;
  copy_to_short = λ bytes offset n h. ground arith;
  to_string-set_offset = λ bytes n h. refl;
  to_string-add_offset = λ bytes n h. refl;
  length-bytes_of = length-low_first;
  integer-bytes_of = read_low_first-low_first;
}
