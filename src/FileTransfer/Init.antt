-- ===== src/FileTransfer/Init.antt =====
-- How FileTransfer.cpp reads FILE_TRANSFER_INIT.
use html_terminal.Prelude.{
  ℕ, ◌%◌, ◌^◌, ◌≡◌, refl, ◌∙◌, Bool, true, false, some, List, [], ◌++◌, if◌then◌else◌, is_some, not,
  ◌==◌,
}
use mathlib.Core.List.{append_assoc}
use html_terminal.Wire.{Memory, IsLawful, read_integer}
use html_terminal.Wire.Layout.{read_integer_here, read_integer_end, read_second}
use html_terminal.FileTransfer.{
  Inspected, init_msg, FileTransfer, number, handle_transfer_init, send_ack_and_switch_to_raw,
}

zero_byte : (b : Bool) → (number b % 256 == 0) ≡ not b
zero_byte true = refl
zero_byte false = refl

not-not : (b : Bool) → not (not b) ≡ b
not-not true = refl
not-not false = refl

if-not : (b : Bool) (x y : FileTransfer) → (if not b then x else y) ≡ (if b then y else x)
if-not true x y = refl
if-not false x y = refl

module _ (mem : Memory) (law : IsLawful mem) where
  module _ (id valid flag size : ℕ) where
    abbrev init_bytes : List ℕ
    init_bytes =
        mem.bytes_of 4 id ++ (mem.bytes_of 1 valid ++ (mem.bytes_of 1 flag ++ mem.bytes_of 8 size))

    init_content :
        mem.to_string (
          mem.add (mem.bytes_of 8 size) (
            mem.add
              (mem.bytes_of 1 flag)
              (mem.add (mem.bytes_of 1 valid) (mem.add (mem.bytes_of 4 id) (mem.make_data [])))))
        ≡ init_bytes
    init_content =
        rw
          (
            law.to_string-add,
            law.to_string-add,
            law.to_string-add,
            law.to_string-add,
            law.to_string-make_data,
            append_assoc (mem.bytes_of 4 id ++ mem.bytes_of 1 valid) (mem.bytes_of 1 flag)
                (mem.bytes_of 8 size),
            append_assoc (mem.bytes_of 4 id) (mem.bytes_of 1 valid)
                (mem.bytes_of 1 flag ++ mem.bytes_of 8 size),
          )
          refl

    reads :
        let d = mem.make_data init_bytes in
        (read_integer mem d 0 4 ≡ some (id % 2 ^ 32))
        × (read_integer mem d 4 1 ≡ some (valid % 256))
        × (read_integer mem d 5 1 ≡ some (flag % 256))
        × (read_integer mem d 6 8 ≡ some (size % 2 ^ 64))
    reads =
        let last = mem.bytes_of 8 size in
        let flagged = mem.bytes_of 1 flag ++ last in
        let validated = mem.bytes_of 1 valid ++ flagged in
        (
          read_integer_here mem law 4 id validated,
          read_second mem law 4 id 0 1 validated ∙ read_integer_here mem law 1 valid flagged,
          read_second mem law 4 id 1 1 validated
              ∙ read_second mem law 1 valid 0 1 flagged
              ∙ read_integer_here mem law 1 flag last,
          read_second mem law 4 id 2 8 validated
              ∙ read_second mem law 1 valid 1 8 flagged
              ∙ read_second mem law 1 flag 0 8 last
              ∙ read_integer_end mem law 8 size,
        )

  module _ (at_server : ℕ) (t : FileTransfer) (id : ℕ) where
    unfoldable pub sized : Bool → ℕ → FileTransfer
    sized flag size = record t {
      client = some at_server;
      is_directory_listing_request = flag;
      expected_file_size = size % 2 ^ 64;
    }

    -- What the server makes of the message.
    told :
        (valid flag : Bool) (size : ℕ)
        → handle_transfer_init mem at_server
            (mem.make_data (init_bytes id (number valid) (number flag) size))
            t
          ≡ (if valid then send_ack_and_switch_to_raw (sized flag size) else sized flag size)
    unfolding handle_transfer_init sized
    told valid flag size =
        let (r₁, r₂, r₃, r₄) = reads id (number valid) (number flag) size in
        rw (r₁, r₂, r₃, r₄, zero_byte valid, zero_byte flag, not-not flag) (if-not valid _ _)

    pub told_inspected :
        (i : Inspected)
        → handle_transfer_init mem at_server (mem.make_data (init_msg mem id i).content) t ≡ (
            if i.is_valid
            then send_ack_and_switch_to_raw (sized (is_some i.directory) i.file_length)
            else sized (is_some i.directory) i.file_length)
    told_inspected i =
        rw (init_content id (number i.is_valid) (number (is_some i.directory)) i.file_length)
          (told i.is_valid (is_some i.directory) i.file_length)
