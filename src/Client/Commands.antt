-- ===== src/Client/Commands.antt =====
-- The command lines of practicum2/client.c reach the handlers of practicum2/server.c.
use cs5600_computer_system.Common.{
  ◌+◌, ◌-◌, ◌<◌, ◌≡◌, arith, none, some, [], ◌∷◌, ◌++◌, length, take_all, length-append,
}
use cs5600_computer_system.Common.Text.{codes}
use cs5600_computer_system.Server.{
  Server, Os, Bytes, buf_size, client_thread, handle_words, dispatch, handle_write, handle_get,
  handle_rm,
}
use cs5600_computer_system.Server.Dispatch.{Word, join, client_thread-join}
use cs5600_computer_system.Client.{write_command, get_command, rm_command}

write-Word : Word (codes "WRITE")
write-Word = (ground arith, ground arith)

get-Word : Word (codes "GET")
get-Word = (ground arith, ground arith)

rm-Word : Word (codes "RM")
rm-Word = (ground arith, ground arith)

module _ (os : Os) (s : Server) {local remote perm : Bytes} (lw : Word local) (wanted : Word remote)
    (pw : Word perm) (fits : length local + length remote + length perm + 8 < 1024) where
  len_tail : (a b : Bytes) → length (a ++ (b' ' ∷ b)) ≡ length a + length b + 1
  len_tail a b = omega (arith, length-append a (b' ' ∷ b))

  write_three :
      write_command local remote (some perm) ≡ join (codes "WRITE" ∷ local ∷ remote ∷ perm ∷ [])
  unfolding write_command
  write_three =
      take_all (buf_size - 1) (join (codes "WRITE" ∷ local ∷ remote ∷ perm ∷ []))
        (omega (arith, len_tail local (remote ++ (b' ' ∷ perm)), len_tail remote perm))

  write_two : write_command local remote none ≡ join (codes "WRITE" ∷ local ∷ remote ∷ [])
  unfolding write_command
  write_two =
      take_all (buf_size - 1) (join (codes "WRITE" ∷ local ∷ remote ∷ []))
        (omega (arith, len_tail local remote))

  get_two : get_command remote local ≡ join (codes "GET" ∷ remote ∷ local ∷ [])
  unfolding get_command
  get_two =
      take_all (buf_size - 1) (join (codes "GET" ∷ remote ∷ local ∷ []))
        (omega (arith, len_tail remote local))

  rm_one : rm_command remote ≡ join (codes "RM" ∷ remote ∷ [])
  unfolding rm_command
  rm_one = take_all (buf_size - 1) (join (codes "RM" ∷ remote ∷ [])) (omega arith)

  -- For plain non-empty names and permission that fit the buffer together: the command line that
  -- the client sends for WRITE with a permission, WRITE without one, GET and RM reaches the handler
  -- of that command, with the remote path and the permission that the client was given.
  pub commands_reach_handlers :
      (client_thread os (some (write_command local remote (some perm))) s
        ≡ handle_write os remote (some perm) s)
      × (client_thread os (some (write_command local remote none)) s
          ≡ handle_write os remote none s)
      × (client_thread os (some (get_command remote local)) s ≡ handle_get os remote s)
      × (client_thread os (some (rm_command remote)) s ≡ handle_rm os remote s)
  unfolding handle_words dispatch
  commands_reach_handlers = (
    rw write_three (
        client_thread-join os (codes "WRITE" ∷ local ∷ remote ∷ perm ∷ []) s
          (write-Word, (lw, (wanted, (pw, tt))))
          (omega (arith, len_tail local (remote ++ (b' ' ∷ perm)), len_tail remote perm))),
    rw write_two (
        client_thread-join os (codes "WRITE" ∷ local ∷ remote ∷ []) s
          (write-Word, (lw, (wanted, tt))) (omega (arith, len_tail local remote))),
    rw get_two (
        client_thread-join os (codes "GET" ∷ remote ∷ local ∷ []) s (get-Word, (wanted, (lw, tt)))
          (omega (arith, len_tail remote local))),
    rw rm_one
        (client_thread-join os (codes "RM" ∷ remote ∷ []) s (rm-Word, (wanted, tt)) (omega arith)),
  )
