-- ===== src/Message/Disk.antt =====
-- `store_msg` and `retrieve_msg` of practicum1/message.c on every outcome of their system calls.
use cs5600_computer_system.Common.{ℕ, ◌≡◌, arith, ◌&&◌, none, some, ◌==◌, if◌then◌else◌}
use cs5600_computer_system.Common.Int.{pos, negsuc}
use cs5600_computer_system.Message.{Message, Files, Io, store_msg, retrieve_msg, read_whole}

-- The status of `store_msg` is 0 exactly if `fopen` and `fwrite` worked. After it, `retrieve_msg` of
-- the id, where it can read, returns the message if `fclose` too got the whole of it into the file;
-- if `fwrite` or `fclose` failed the file is torn and NULL is returned, after a failing `fclose` in spite
-- of the status 0; if the file did not open, what was there before is returned. The file of any
-- other id is as before.
pub retrieve_msg-store_msg :
    (io io' : Io) (msg : Message) (id : ℕ) (files : Files)
    → let (status, files') = store_msg io (some msg) files in
      (status ≡ (if io.opens_write && io.writes then pos 0 else negsuc 0))
      × (retrieve_msg io' id files' ≡ (
          if io'.opens_read && io'.allocates
          then (if id == msg.id && io.opens_write
              then (if io.writes && io.flushes then some msg else none)
              else read_whole (files id))
          else none))
unfolding store_msg retrieve_msg
retrieve_msg-store_msg io io' msg id files = ground arith
