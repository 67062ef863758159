-- ===== src/Wire/Layout.antt =====
-- The pieces of a content: an integer, or the rest, behind any bytes.
use html_terminal.Prelude.{
  ℕ, zero, suc, ◌+◌, ◌%◌, ◌^◌, ◌≤◌, ◌<◌, ◌≡◌, refl, ap, subst, ◌∙◌, none, some, List, [], ◌∷◌, ◌++◌,
  length, take, drop, length-append, take-append, arith, inl, inr, leb, Bool-cases,
}
use mathlib.Core.List.{append-nil}
use html_terminal.Wire.{MessageType, number_of, type_from_int, Memory, IsLawful, read_integer}

pub type_from_int-number_of : (type : MessageType) → type_from_int (number_of type) ≡ type
unfolding type_from_int
type_from_int-number_of MessageType.unknown = refl
type_from_int-number_of MessageType.ping = refl
type_from_int-number_of MessageType.pong = refl
type_from_int-number_of MessageType.client_info = refl
type_from_int-number_of MessageType.create_terminal = refl
type_from_int-number_of MessageType.resize_terminal = refl
type_from_int-number_of MessageType.delete_terminal = refl
type_from_int-number_of MessageType.on_terminal_created = refl
type_from_int-number_of MessageType.on_terminal_read = refl
type_from_int-number_of MessageType.on_terminal_read_ack = refl
type_from_int-number_of MessageType.on_terminal_write = refl
type_from_int-number_of MessageType.on_terminal_end = refl
type_from_int-number_of MessageType.file_transfer_req = refl
type_from_int-number_of MessageType.file_transfer_init = refl
type_from_int-number_of MessageType.file_transfer_ack = refl

drop-append : (xs ys : List ℕ) → drop (length xs) (xs ++ ys) ≡ ys
drop-append [] ys = refl
drop-append (x ∷ xs) ys = drop-append xs ys

drop-append_past : (xs ys : List ℕ) (m k : ℕ) → m ≡ length xs + k → drop m (xs ++ ys) ≡ drop k ys
drop-append_past [] ys m k e = ap (λ m. drop m ys) (omega (arith, e))
drop-append_past (x ∷ xs) ys zero k e = absurd (omega (arith, e))
drop-append_past (x ∷ xs) ys (suc m) k e = drop-append_past xs ys m k (omega (arith, e))

module _ (mem : Memory) (law : IsLawful mem) where
  pub read_integer_short :
      (bytes : List ℕ) (offset n : ℕ)
      → length bytes < offset + n
      → read_integer mem (mem.make_data bytes) offset n ≡ none
  unfolding read_integer
  read_integer_short bytes offset n h = rw (law.copy_to_short bytes offset n h) refl

  pub read_integer_here :
      (n x : ℕ) (after : List ℕ)
      → read_integer mem (mem.make_data (mem.bytes_of n x ++ after)) 0 n ≡ some (x % 256 ^ n)
  unfolding read_integer
  read_integer_here n x after =
      let size : length (mem.bytes_of n x) ≡ n = law.length-bytes_of n x in
      let bytes = mem.bytes_of n x ++ after in
      let there : 0 + n ≤ length bytes =
        omega (arith, size, length-append (mem.bytes_of n x) after) in
      let taken : take n bytes ≡ mem.bytes_of n x =
        subst (λ k. take k bytes ≡ mem.bytes_of n x) size (take-append (mem.bytes_of n x) after) in
      rw (law.copy_to-make_data bytes 0 n there, taken, law.integer-bytes_of) refl

  pub read_integer_end :
      (n x : ℕ) → read_integer mem (mem.make_data (mem.bytes_of n x)) 0 n ≡ some (x % 256 ^ n)
  read_integer_end n x =
      subst (λ bytes. read_integer mem (mem.make_data bytes) 0 n ≡ some (x % 256 ^ n))
        (append-nil (mem.bytes_of n x)) (read_integer_here n x [])

  -- Behind a piece of `k` bytes the offsets count from its end.
  pub read_integer_past :
      (before after : List ℕ) (k offset n : ℕ)
      → length before ≡ k
      → read_integer mem (mem.make_data (before ++ after)) (k + offset) n
        ≡ read_integer mem (mem.make_data after) offset n
  unfolding read_integer
  read_integer_past before after k offset n e =
      let all = length-append before after in
      elim (Bool-cases (leb (offset + n) (length after))) [
        | inl e₁ ↦
            let fits : offset + n ≤ length after = ground arith in
            rw
              (
                law.copy_to-make_data (before ++ after) (k + offset) n
                    (omega (arith, all, e, fits)),
                law.copy_to-make_data after offset n fits,
                drop-append_past before after (k + offset) offset (omega (arith, e)),
              )
              refl
        | inr e₁ ↦
            let short : length after < offset + n = ground arith in
            rw
              (
                law.copy_to_short (before ++ after) (k + offset) n (omega (arith, all, e, short)),
                law.copy_to_short after offset n short,
              )
              refl
      ]

  -- Behind one integer, or two.
  pub read_second :
      (k y offset n : ℕ) (after : List ℕ)
      → read_integer mem (mem.make_data (mem.bytes_of k y ++ after)) (k + offset) n
        ≡ read_integer mem (mem.make_data after) offset n
  read_second k y offset n after =
      read_integer_past (mem.bytes_of k y) after k offset n (law.length-bytes_of k y)

  pub rest_at :
      (before after : List ℕ) (offset : ℕ)
      → length before ≡ offset
      → mem.to_string (mem.set_offset offset (mem.make_data (before ++ after))) ≡ after
  rest_at before after offset e =
      law.to_string-set_offset (before ++ after) offset
        (omega (arith, length-append before after, e))
      ∙ subst (λ k. drop k (before ++ after) ≡ after) e (drop-append before after)

  pub rest_after :
      (before after : List ℕ) (offset : ℕ)
      → length before ≡ offset
      → mem.to_string (mem.add_offset offset (mem.make_data (before ++ after))) ≡ after
  rest_after before after offset e =
      law.to_string-add_offset (before ++ after) offset
        (omega (arith, length-append before after, e))
      ∙ subst (λ k. drop k (before ++ after) ≡ after) e (drop-append before after)
