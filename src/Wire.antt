-- ===== src/Wire.antt =====
-- MessageType.h, and what TerminalServer.cpp, TerminalClient.cpp and FileTransfer.cpp use of the
-- cpp_utils submodule for the content of a message: `Data`, `Message` and `SimpleMessage`.
pub mod Layout
pub mod Memories
use html_terminal.Prelude.{
  ℕ, ◌+◌, ◌%◌, ◌^◌, ◌≤◌, ◌<◌, ◌≡◌, Bool, true, Option, none, some, List, [], ◌∷◌, ◌++◌, length,
  take, drop, get_elem?,
}

-- `MessageType::Type`
pub data MessageType : Type 0 where
  unknown ping pong client_info : MessageType
  create_terminal resize_terminal delete_terminal : MessageType
  on_terminal_created on_terminal_read on_terminal_read_ack : MessageType
  on_terminal_write on_terminal_end : MessageType
  file_transfer_req file_transfer_init file_transfer_ack : MessageType

-- The enumerators, each at its number.
abbrev pub enumerators : List MessageType
enumerators =
    MessageType.unknown ∷ MessageType.ping ∷ MessageType.pong ∷ MessageType.client_info
    ∷ MessageType.create_terminal ∷ MessageType.resize_terminal ∷ MessageType.delete_terminal
    ∷ MessageType.on_terminal_created ∷ MessageType.on_terminal_read
    ∷ MessageType.on_terminal_read_ack ∷ MessageType.on_terminal_write ∷ MessageType.on_terminal_end
    ∷ MessageType.file_transfer_req ∷ MessageType.file_transfer_init ∷ MessageType.file_transfer_ack
    ∷ []

-- `(uint8_t)type`
abbrev pub number_of : MessageType → ℕ
number_of MessageType.unknown = 0
number_of MessageType.ping = 1
number_of MessageType.pong = 2
number_of MessageType.client_info = 3
number_of MessageType.create_terminal = 4
number_of MessageType.resize_terminal = 5
number_of MessageType.delete_terminal = 6
number_of MessageType.on_terminal_created = 7
number_of MessageType.on_terminal_read = 8
number_of MessageType.on_terminal_read_ack = 9
number_of MessageType.on_terminal_write = 10
number_of MessageType.on_terminal_end = 11
number_of MessageType.file_transfer_req = 12
number_of MessageType.file_transfer_init = 13
number_of MessageType.file_transfer_ack = 14

abbrev known_or_unknown : Option MessageType → MessageType
known_or_unknown none = MessageType.unknown
known_or_unknown (some type) = type

-- `TypeFromInt(type)`
unfoldable pub type_from_int : ℕ → MessageType
type_from_int n = known_or_unknown (get_elem? enumerators n)

-- `Data`, and the bytes of an integer in memory. `make_data bytes` is `Data(n, bytes)`; `copy_to d offset n`
-- are the bytes that `CopyTo` writes, and none where it returns false; `to_string` is also
-- `GetCurrentDataRaw()` with `GetCurrentSize()`; `bytes_of n x` are the `n` bytes of `x`, and `integer`
-- is the number that has them.
pub record Memory : Type 1 where
  pub Data : Type 0
  pub make_data : List ℕ → Data
  pub add : List ℕ → Data → Data
  pub copy_to : Data → ℕ → ℕ → Option (List ℕ)
  pub set_offset : ℕ → Data → Data
  pub add_offset : ℕ → Data → Data
  pub to_string : Data → List ℕ
  pub bytes_of : ℕ → ℕ → List ℕ
  pub integer : List ℕ → ℕ

pub record IsLawful (mem : Memory) : Type 0 where
  pub to_string-make_data : (bytes : List ℕ) → mem.to_string (mem.make_data bytes) ≡ bytes
  pub to_string-add :
      (bytes : List ℕ) (d : mem.Data) → mem.to_string (mem.add bytes d) ≡ mem.to_string d ++ bytes
  pub copy_to-make_data :
      (bytes : List ℕ) (offset n : ℕ)
      → offset + n ≤ length bytes
      → mem.copy_to (mem.make_data bytes) offset n ≡ some (take n (drop offset bytes))
  pub copy_to_short :
      (bytes : List ℕ) (offset n : ℕ)
      → length bytes < offset + n
      → mem.copy_to (mem.make_data bytes) offset n ≡ none
  pub to_string-set_offset :
      (bytes : List ℕ) (n : ℕ)
      → n ≤ length bytes
      → mem.to_string (mem.set_offset n (mem.make_data bytes)) ≡ drop n bytes
  pub to_string-add_offset :
      (bytes : List ℕ) (n : ℕ)
      → n ≤ length bytes
      → mem.to_string (mem.add_offset n (mem.make_data bytes)) ≡ drop n bytes
  pub length-bytes_of : (n x : ℕ) → length (mem.bytes_of n x) ≡ n
  pub integer-bytes_of : (n x : ℕ) → mem.integer (mem.bytes_of n x) ≡ x % 256 ^ n

-- `SimpleMessage`: the type of its header, its content, and whether all of the content has come.
pub record Packet : Type 0 where
  pub type : ℕ
  pub content : List ℕ
  pub completed : Bool

-- `SimpleMessage((uint8_t)type, DataResource(data))`
abbrev pub simple_message : (mem : Memory) → MessageType → mem.Data → Packet
simple_message mem type d = record {
  type = number_of type;
  content = mem.to_string d;
  completed = true;
}

-- `SimpleMessage((uint8_t)type)`
abbrev pub bare_message : MessageType → Packet
bare_message type = record { type = number_of type; content = []; completed = true }

abbrev map_integer : (mem : Memory) → Option (List ℕ) → Option ℕ
map_integer mem none = none
map_integer mem (some bytes) = some (mem.integer bytes)

-- `CopyTo(&x, offset, n)` of an integer of `n` bytes.
unfoldable pub read_integer : (mem : Memory) → mem.Data → ℕ → ℕ → Option ℕ
read_integer mem d offset n = map_integer mem (mem.copy_to d offset n)

-- What the integer holds that was 0 before `CopyTo`.
abbrev pub or_zero : Option ℕ → ℕ
or_zero none = 0
or_zero (some x) = x
