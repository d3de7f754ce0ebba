-- ===== src/Demo/Stored.antt =====
-- What practicum1/main.c leaves on the disk.
use cs5600_computer_system.Common.{
  ℕ, ◌+◌, ◌≤◌, ◌<◌, ◌≡◌, refl, ap, ◌∙◌, subst, arith, true, Option, none, some, List, [], ◌∷◌, ◌++◌,
  length, ℕ_discrete, take_all, length-take_bound,
}
use cs5600_computer_system.Common.Text.{codes}
use cs5600_computer_system.Message.{
  Message, Files, whole, Io, create_msg, store_msg, retrieve_msg, read_whole,
}
use cs5600_computer_system.Message.Strings.{
  NulFree, Sized, create_msg_lem, c_str, append-NulFree, take-NulFree,
}
use cs5600_computer_system.Cache.Invariant.{FilesMatch}
use cs5600_computer_system.Cache.Transparent.{works}
use cs5600_computer_system.Demo.{
  Round, decimal, sender_text, receiver_text, content_text, store_messages, store_created,
}

create_msg-id :
    (block : Option Message) (now id : ℕ) (a b c : List ℕ) (delivered : ℕ) (m : Message)
    → create_msg block now id a b c delivered ≡ some m
    → m.id ≡ id
unfolding create_msg
create_msg-id none now id a b c delivered m e = ground arith
create_msg-id (some block) now id a b c delivered m e = ground arith

store_msg-FilesMatch :
    (io : Io) (m : Message) (files : Files)
    → FilesMatch files
    → FilesMatch (store_msg io (some m) files).1
unfolding store_msg
store_msg-FilesMatch io m files named id msg e = ground (arith, named id msg)

store_created-FilesMatch :
    (io : Io) (o : Option Message) (files : Files)
    → FilesMatch files
    → FilesMatch (store_created io o files)
store_created-FilesMatch io none files named = named
store_created-FilesMatch io (some m) files named = store_msg-FilesMatch io m files named

-- Each file still holds the message of its name.
pub store_messages-FilesMatch :
    (rs : List Round) (i : ℕ) (files : Files)
    → FilesMatch files
    → FilesMatch (store_messages rs i files)
unfolding store_messages
store_messages-FilesMatch [] i files named = named
store_messages-FilesMatch (r ∷ rest) i files named =
    let o = create_msg r.block r.now i (sender_text i) (receiver_text i) (content_text i) 0 in
    store_messages-FilesMatch rest (i + 1) (store_created r.io o files)
      (store_created-FilesMatch r.io o files named)

-- The loop does not come back to earlier messages.
store_created-other :
    (io : Io) (o : Option Message) (files : Files) (i id : ℕ)
    → ((m : Message) → o ≡ some m → m.id ≡ i)
    → id < i
    → store_created io o files id ≡ files id
unfolding store_msg
store_created-other io none files i id n h = refl
store_created-other io (some m) files i id n h =
    let same : m.id ≡ i = n m refl in ground (arith, same, h)

store_messages-before :
    (rs : List Round) (i : ℕ) (files : Files) (id : ℕ)
    → id < i
    → store_messages rs i files id ≡ files id
unfolding store_messages
store_messages-before [] i files id h = refl
store_messages-before (r ∷ rest) i files id h =
    let o = create_msg r.block r.now i (sender_text i) (receiver_text i) (content_text i) 0 in
    store_messages-before rest (i + 1) (store_created r.io o files) id (omega arith)
    ∙ store_created-other r.io o files i id
        (create_msg-id r.block r.now i (sender_text i) (receiver_text i) (content_text i) 0) h

-- A round in which every call works.
pub record Succeeds (r : Round) : Type 0 where
  pub block : Message
  pub allocated : r.block ≡ some block
  pub sized : Sized block
  pub opens : r.io.opens_write ≡ true
  pub writes : r.io.writes ≡ true
  pub flushes : r.io.flushes ≡ true

abbrev pub AllSucceed : List Round → Type 0
AllSucceed [] = Unit {0}
AllSucceed (r ∷ rest) = Succeeds r × AllSucceed rest

-- The message that the loop makes for an id.
pub record Sample (m : Message) (id : ℕ) : Type 0 where
  pub id_is : m.id ≡ id
  pub sender_is : c_str m.sender ≡ sender_text id
  pub receiver_is : c_str m.receiver ≡ receiver_text id
  pub content_is : c_str m.content ≡ content_text id
  pub undelivered : m.delivered ≡ 0

decimal-NulFree : (n : ℕ) → NulFree (decimal n)
decimal-NulFree n = ground arith

sender_text-NulFree : (i : ℕ) → NulFree (sender_text i)
unfolding sender_text
sender_text-NulFree i =
    take-NulFree 31 (codes "sender" ++ decimal i)
      (append-NulFree (codes "sender") (decimal i) (ground arith) (decimal-NulFree i))

receiver_text-NulFree : (i : ℕ) → NulFree (receiver_text i)
unfolding receiver_text
receiver_text-NulFree i =
    take-NulFree 31 (codes "receiver" ++ decimal i)
      (append-NulFree (codes "receiver") (decimal i) (ground arith) (decimal-NulFree i))

content_text-NulFree : (i : ℕ) → NulFree (content_text i)
unfolding content_text
content_text-NulFree i =
    let front = codes "Hello, this is message " in
    take-NulFree 63 (front ++ (decimal i ++ codes "!")) (
      append-NulFree front (decimal i ++ codes "!") (ground arith)
        (append-NulFree (decimal i) (codes "!") (decimal-NulFree i) (ground arith)))

text_lengths :
    (i : ℕ)
    → (length (sender_text i) ≤ 31)
      × (length (receiver_text i) ≤ 31)
      × (length (content_text i) ≤ 63)
unfolding sender_text receiver_text content_text
text_lengths i = (
  length-take_bound 31 (codes "sender" ++ decimal i),
  length-take_bound 31 (codes "receiver" ++ decimal i),
  length-take_bound 63 (codes "Hello, this is message " ++ (decimal i ++ codes "!")),
)

created_Sample :
    (r : Round) (i : ℕ)
    → Succeeds r
    → (m : Message) × (create_msg r.block r.now i
          (sender_text i)
          (receiver_text i)
          (content_text i)
          0
        ≡ some m)
      × Sample m i
created_Sample r i w =
    let (m, e, sized, says) =
      create_msg_lem w.block r.now i (sender_text i) (receiver_text i) (content_text i) 0 w.sized
        (sender_text-NulFree i) (receiver_text-NulFree i) (content_text-NulFree i) in
    let l = text_lengths i in
    (
      m,
      rw w.allocated e,
      record {
        id_is = says.id_is;
        sender_is = says.sender_is ∙ take_all 31 (sender_text i) l.0;
        receiver_is = says.receiver_is ∙ take_all 31 (receiver_text i) l.1;
        content_is = says.content_is ∙ take_all 943 (content_text i) (omega (arith, l.2));
        undelivered = says.delivered_is;
      },
    )

stored_here :
    (io : Io) (o : Option Message) (m : Message) (files : Files)
    → o ≡ some m
    → io.opens_write ≡ true
    → io.writes ≡ true
    → io.flushes ≡ true
    → store_created io o files m.id ≡ some (whole m)
unfolding store_msg
stored_here io none m files e opens writes flushes = ground arith
stored_here io (some m') m files e opens writes flushes = ground (arith, flushes)

stored_from :
    (rs : List Round) (i : ℕ) (files : Files) (id : ℕ)
    → AllSucceed rs
    → i ≤ id
    → id < i + length rs
    → (m : Message) × (retrieve_msg works id (store_messages rs i files) ≡ some m) × Sample m id
unfolding store_messages retrieve_msg store_msg
stored_from [] i files id w low high = absurd (omega arith)
stored_from (r ∷ rest) i files id w low high =
    let o = create_msg r.block r.now i (sender_text i) (receiver_text i) (content_text i) 0 in
    let files' = store_created r.io o files in
    elim (ℕ_discrete i id) [
      | yes same ↦
          let (m, e, sample) = created_Sample r i w.0 in
          let at_id : files' id ≡ some (whole m) =
            subst (λ j. files' j ≡ some (whole m)) (sample.id_is ∙ same)
              (stored_here r.io o m files e w.0.opens w.0.writes w.0.flushes) in
          (
            m,
            ap read_whole (store_messages-before rest (i + 1) files' id (omega arith) ∙ at_id),
            subst (λ j. Sample m j) same sample,
          )
      | no other ↦ stored_from rest (i + 1) files' id w.1 (omega arith) (omega arith)
    ]

-- Where every call of the first loop works, each of its messages, at most 20, can be read back by its
-- id, is not delivered, and has the sender, the receiver and the content that `main` printed into its
-- buffers.
pub messages_stored :
    (rs : List Round) (files : Files) (id : ℕ)
    → AllSucceed rs
    → length rs ≤ 20
    → 1 ≤ id
    → id ≤ length rs
    → (m : Message) × (retrieve_msg works id (store_messages rs 1 files) ≡ some m) × Sample m id
messages_stored rs files id w few low high = stored_from rs 1 files id w low (omega arith)
