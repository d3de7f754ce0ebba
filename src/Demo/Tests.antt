-- ===== src/Demo/Tests.antt =====
-- The program of practicum1/main.c on concrete outcomes of its calls.
use cs5600_computer_system.Common.{
  ℕ, ◌+◌, ◌≡◌, refl, arith, none, some, [], ◌∷◌, replicate, length-replicate,
}
use cs5600_computer_system.Common.Text.{codes}
use cs5600_computer_system.Message.{Message, Files, retrieve_msg}
use cs5600_computer_system.Message.Strings.{Sized}
use cs5600_computer_system.Cache.{Cache, ok}
use cs5600_computer_system.Cache.Invariant.{FilesMatch}
use cs5600_computer_system.Cache.Transparent.{works}
use cs5600_computer_system.Demo.{Round, store_messages, main, sender_text, content_text}
use cs5600_computer_system.Demo.Stored.{AllSucceed, Succeeds, Sample, messages_stored}
use cs5600_computer_system.Demo.Statistics.{main-counts}

-- Memory full of ones.
abbrev block : Message
block = record {
  id = 1;
  time_sent = 1;
  sender = replicate 32 1;
  receiver = replicate 32 1;
  content = replicate 944 1;
  delivered = 1;
}

block-Sized : Sized block
block-Sized = record {
  sender_len = length-replicate {A = ℕ} 32 1;
  receiver_len = length-replicate {A = ℕ} 32 1;
  content_len = length-replicate {A = ℕ} 944 1;
}

abbrev good_round : Round
good_round = record { block = some block; now = 5; io = works }

abbrev no_files : Files
no_files id = none

no_files-FilesMatch : FilesMatch no_files
no_files-FilesMatch id msg e = ground arith

two-AllSucceed : AllSucceed (good_round ∷ good_round ∷ [])
two-AllSucceed =
    let w : Succeeds good_round = record {
      block = block;
      allocated = refl;
      sized = block-Sized;
      opens = refl;
      writes = refl;
      flushes = refl;
    } in
    (w, (w, tt))

sender_12 : sender_text 12 ≡ codes "sender12"
unfolding sender_text
sender_12 = refl

content_7 : content_text 7 ≡ codes "Hello, this is message 7!"
unfolding content_text
content_7 = refl

messages_stored_example :
    (m : Message) × (retrieve_msg works 2 (store_messages (good_round ∷ good_round ∷ []) 1 no_files)
      ≡ some m)
    × Sample m 2
messages_stored_example =
    messages_stored (good_round ∷ good_round ∷ []) no_files 2 two-AllSucceed (omega arith)
      (omega arith) (omega arith)

main-counts_example :
    (hits : ℕ) × (misses : ℕ) × (t : Cache) × (main
        (good_round ∷ good_round ∷ [])
        ((works, 0) ∷ (works, 6) ∷ (works, 20) ∷ [])
        (λ p. 0)
        (λ p. block)
        (λ p. 0)
        (λ p. 0)
        no_files
      ≡ ok (hits, misses) t)
    × (hits + misses ≡ 3)
main-counts_example =
    main-counts (good_round ∷ good_round ∷ []) ((works, 0) ∷ (works, 6) ∷ (works, 20) ∷ []) (λ p. 0)
      (λ p. block) (λ p. 0) (λ p. 0) no_files no_files-FilesMatch
