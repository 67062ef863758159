-- ===== src/Link/Answers.antt =====
-- What the server makes of the messages of the client.
use html_terminal.Prelude.{
  ℕ, ◌%◌, ◌^◌, ◌≡◌, refl, ◌∙◌, true, false, some, [], ◌∷◌, ◌++◌, Text, eq-false,
}
use mathlib.Core.List.{append_assoc}
use html_terminal.Wire.{Memory, IsLawful, read_integer, type_from_int}
use html_terminal.Wire.Layout.{read_integer_here, read_integer_end, read_second, rest_at}
use html_terminal.TermClient.{
  Reply, on_terminal_created, on_terminal_read, on_terminal_end, client_info, ping, pong,
}
use html_terminal.TermClient.Dispatch.{reply_packet}
use html_terminal.Server.Dispatch.{TerminalServer, on_client_read, handle_client_info, split_name}
use html_terminal.Link.{IsCString, HasPlainName, heard}

split_name-append :
    (user_name client_name : Text)
    → IsCString user_name
    → split_name (user_name ++ (0 ∷ client_name)) ≡ some (user_name, client_name)
unfolding split_name
split_name-append [] client_name h = refl
split_name-append (b ∷ user_name) client_name h =
    rw (eq-false b 0 h.0, split_name-append user_name client_name h.1) refl

module _ (mem : Memory) (law : IsLawful mem) where
  created :
      (h t flag : ℕ)
      → let d =
          mem.make_data
            (mem.to_string (mem.add (mem.bytes_of 1 flag) (mem.make_data (mem.bytes_of 4 t)))) in
        (read_integer mem d 0 4 ≡ some (t % 2 ^ 32)) × (read_integer mem d 4 1 ≡ some (flag % 256))
  created h t flag =
      let flag_bytes = mem.bytes_of 1 flag in
      (
        rw (law.to_string-add, law.to_string-make_data) (read_integer_here mem law 4 t flag_bytes),
        rw (law.to_string-add, law.to_string-make_data)
            (read_second mem law 4 t 0 1 flag_bytes ∙ read_integer_end mem law 1 flag),
      )

  -- Whatever a client sends the server, where no byte of a user's name is 0: the server, in any state,
  -- reads it without passing its end, and posts or answers just what the message is for, with the
  -- numbers modulo 2 ^ 32. Output is acknowledged, and a ping is answered.
  pub on_client_read-reply_packet :
      (h : ℕ) (ip : Text) (msg : Reply) (s : TerminalServer)
      → HasPlainName msg
      → on_client_read mem h ip (reply_packet mem msg) s ≡ some (heard h ip msg s)
  unfolding on_client_read reply_packet type_from_int handle_client_info
  on_client_read-reply_packet h ip (on_terminal_created t true) s plain =
      rw ((created h t 1).0, (created h t 1).1) refl
  on_client_read-reply_packet h ip (on_terminal_created t false) s plain =
      rw ((created h t 0).0, (created h t 0).1) refl
  on_client_read-reply_packet h ip (on_terminal_read t output) s plain =
      rw
        (
          law.to_string-add,
          law.to_string-make_data,
          read_integer_here mem law 4 t output,
          rest_at mem law (mem.bytes_of 4 t) output 4 (law.length-bytes_of 4 t),
        )
        refl
  on_client_read-reply_packet h ip (on_terminal_end t) s plain =
      rw (law.to_string-make_data, read_integer_end mem law 4 t) refl
  on_client_read-reply_packet h ip (client_info user_name client_name) s plain =
      rw
        (
          law.to_string-make_data,
          law.to_string-add,
          law.to_string-add,
          law.to_string-make_data,
          append_assoc user_name (0 ∷ []) client_name,
          split_name-append user_name client_name plain,
        )
        refl
  on_client_read-reply_packet h ip ping s plain = refl
  on_client_read-reply_packet h ip pong s plain = refl
