-- ===== src/Message/Tests.antt =====
-- The message store of practicum1/message.c at concrete inputs.
use cs5600_computer_system.Common.{
  ℕ, ◌≡◌, refl, true, ◌&&◌, none, some, [], ◌∷◌, ◌==◌, if◌then◌else◌, replicate, length-replicate,
}
use cs5600_computer_system.Common.Int.{pos, negsuc}
use cs5600_computer_system.Common.Text.{codes}
use cs5600_computer_system.Message.{Message, Io, store_msg, retrieve_msg, read_whole, fill}
use cs5600_computer_system.Message.Strings.{c_str, Sized}
use cs5600_computer_system.Message.Disk.{retrieve_msg-store_msg}

-- Memory full of sevens.
abbrev block : Message
block = record {
  id = 7;
  time_sent = 7;
  sender = replicate 32 7;
  receiver = replicate 32 7;
  content = replicate 944 7;
  delivered = 7;
}

block-Sized : Sized block
block-Sized = record {
  sender_len = length-replicate {A = ℕ} 32 7;
  receiver_len = length-replicate {A = ℕ} 32 7;
  content_len = length-replicate {A = ℕ} 944 7;
}

fill_cuts : c_str (fill 4 (7 ∷ 7 ∷ 7 ∷ 7 ∷ []) (codes "hello")) ≡ codes "hel"
unfolding fill
fill_cuts = refl

abbrev works : Io
works = record {
  opens_write = true;
  writes = true;
  flushes = true;
  opens_read = true;
  allocates = true;
}

abbrev note : ℕ → Message
note id = record { id = id; time_sent = 0; sender = []; receiver = []; content = []; delivered = 0 }

retrieve_msg-store_msg_example :
    let (status, files') = store_msg works (some (note 3)) (λ id. none) in
    (status ≡ (if works.opens_write && works.writes then pos 0 else negsuc 0))
    × (retrieve_msg works 3 files' ≡ (
        if works.opens_read && works.allocates
        then (if 3 == (note 3).id && works.opens_write
            then (if works.writes && works.flushes then some (note 3) else none)
            else read_whole none)
        else none))
retrieve_msg-store_msg_example = retrieve_msg-store_msg works works (note 3) 3 (λ id. none)
