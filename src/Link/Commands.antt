-- ===== src/Link/Commands.antt =====
-- What the client makes of the commands of the server.
use html_terminal.Prelude.{
  ℕ, ◌≡◌, refl, sym, ap, ◌∙◌, List, [], ◌∷◌, ◌++◌, length, length-append, arith,
}
use mathlib.Core.List.{append_assoc}
use html_terminal.Wire.{Memory, IsLawful, type_from_int}
use html_terminal.Wire.Layout.{
  read_integer_here, read_integer_end, read_second, rest_at, rest_after,
}
use html_terminal.FileTransfer.{transfer_request_msg}
use html_terminal.TermClient.Dispatch.{
  TerminalClient, on_client_read, handle_resize_terminal_data, handle_file_request,
}
use html_terminal.Server.State.{HostMsg, on_terminal_write, file_transfer_req}
use html_terminal.Server.Dispatch.{host_packet}
use html_terminal.Link.{delivered}

module _ (mem : Memory) (law : IsLawful mem) where
  request_content :
      (id flag : ℕ) (path : List ℕ)
      → mem.to_string (
          mem.add path
            (mem.add (mem.bytes_of 1 flag) (mem.add (mem.bytes_of 4 id) (mem.make_data []))))
        ≡ mem.bytes_of 4 id ++ (mem.bytes_of 1 flag ++ path)
  request_content id flag path =
      rw (law.to_string-add, law.to_string-add, law.to_string-add, law.to_string-make_data)
        (append_assoc (mem.bytes_of 4 id) (mem.bytes_of 1 flag) path)

  request_path :
      (id flag : ℕ) (path : List ℕ)
      → mem.to_string
          (mem.set_offset 5 (mem.make_data (mem.bytes_of 4 id ++ (mem.bytes_of 1 flag ++ path))))
        ≡ path
  request_path id flag path =
      let head = mem.bytes_of 4 id ++ mem.bytes_of 1 flag in
      let size : length head ≡ 5 = omega (
        arith,
        length-append (mem.bytes_of 4 id) (mem.bytes_of 1 flag),
        law.length-bytes_of 4 id,
        law.length-bytes_of 1 flag,
      ) in
      ap (λ bytes. mem.to_string (mem.set_offset 5 (mem.make_data bytes)))
        (sym (append_assoc (mem.bytes_of 4 id) (mem.bytes_of 1 flag) path))
      ∙ rest_at mem law head path 5 size

  -- Whatever the message that the server sends a host: the client there, in any state, posts or makes
  -- just the call that the message is for, with the numbers modulo 2 ^ 32 or, for sizes, 2 ^ 16.
  pub on_client_read-host_packet :
      (msg : HostMsg) (c : TerminalClient)
      → on_client_read mem (host_packet mem msg) c ≡ delivered msg c
  unfolding on_client_read host_packet transfer_request_msg type_from_int
      handle_resize_terminal_data handle_file_request
  on_client_read-host_packet (HostMsg.create_terminal t) c =
      rw (law.to_string-make_data, read_integer_end mem law 4 t) refl
  on_client_read-host_packet (HostMsg.resize_terminal t width height) c =
      let all = mem.bytes_of 2 width ++ mem.bytes_of 2 height in
      rw
        (
          law.to_string-add,
          law.to_string-add,
          law.to_string-make_data,
          append_assoc (mem.bytes_of 4 t) (mem.bytes_of 2 width) (mem.bytes_of 2 height),
          read_integer_here mem law 4 t all,
          read_second mem law 4 t 0 2 all,
          read_integer_here mem law 2 width (mem.bytes_of 2 height),
          read_second mem law 4 t 2 2 all,
          read_second mem law 2 width 0 2 (mem.bytes_of 2 height),
          read_integer_end mem law 2 height,
        )
        refl
  on_client_read-host_packet (HostMsg.delete_terminal t) c =
      rw (law.to_string-make_data, read_integer_end mem law 4 t) refl
  on_client_read-host_packet (on_terminal_write t key) c =
      rw
        (
          law.to_string-add,
          law.to_string-add,
          law.to_string-make_data,
          read_integer_here mem law 4 t key,
          rest_after mem law (mem.bytes_of 4 t) key 4 (law.length-bytes_of 4 t),
        )
        refl
  on_client_read-host_packet (file_transfer_req id []) c =
      rw
        (
          request_content id 1 [],
          read_integer_here mem law 4 id (mem.bytes_of 1 1 ++ []),
          read_second mem law 4 id 0 1 (mem.bytes_of 1 1 ++ []),
          read_integer_here mem law 1 1 [],
          request_path id 1 [],
        )
        refl
  on_client_read-host_packet (file_transfer_req id (b ∷ path)) c =
      rw
        (
          request_content id 1 (b ∷ path),
          read_integer_here mem law 4 id (mem.bytes_of 1 1 ++ (b ∷ path)),
          read_second mem law 4 id 0 1 (mem.bytes_of 1 1 ++ (b ∷ path)),
          read_integer_here mem law 1 1 (b ∷ path),
          request_path id 1 (b ∷ path),
        )
        refl
