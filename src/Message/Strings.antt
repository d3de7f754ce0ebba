-- ===== src/Message/Strings.antt =====
-- `create_msg` of practicum1/message.c keeps its strings inside their arrays, ended by a NUL.
use cs5600_computer_system.Common.{
  ℕ, zero, suc, ◌+◌, ◌-◌, ◌≤◌, ◌<◌, ◌≡◌, ◌≢◌, refl, ap, arith, some, List, [], ◌∷◌, ◌++◌, length,
  set, take, drop, replicate, length-append, length-set, length-drop,
}
use cs5600_computer_system.Message.{
  Message, fill, create_msg, max_sender_len, max_receiver_len, max_content_len,
}

-- The C string in an array: its bytes before the first NUL.
abbrev pub c_str : List ℕ → List ℕ
c_str [] = []
c_str (zero ∷ xs) = []
c_str (suc c ∷ xs) = suc c ∷ c_str xs

-- No byte is a NUL.
abbrev pub NulFree : List ℕ → Type 0
NulFree [] = Unit {0}
NulFree (c ∷ xs) = (c ≢ 0) × NulFree xs

pub append-NulFree : (a b : List ℕ) → NulFree a → NulFree b → NulFree (a ++ b)
append-NulFree [] b p r = r
append-NulFree (c ∷ a) b p r = (p.0, append-NulFree a b p.1 r)

pub take-NulFree : (n : ℕ) (s : List ℕ) → NulFree s → NulFree (take n s)
take-NulFree zero s p = tt
take-NulFree (suc n) [] p = tt
take-NulFree (suc n) (c ∷ s) p = (p.0, take-NulFree n s p.1)

length-take-pad :
    (n : ℕ) (src : List ℕ) (k : ℕ) → n ≤ length src + k → length (take n (src ++ replicate k 0)) ≡ n
length-take-pad zero src k h = refl
length-take-pad (suc n) [] zero h = absurd (omega arith)
length-take-pad (suc n) [] (suc k) h = ap suc (length-take-pad n [] k (omega arith))
length-take-pad (suc n) (c ∷ src) k h = ap suc (length-take-pad n src k (omega arith))

-- Writing a NUL just past the copied bytes ends the string there at the latest.
c_str-pad :
    (n : ℕ) (rest : List ℕ)
    → 0 < length rest
    → c_str (set (take n ([] ++ replicate n 0) ++ rest) n 0) ≡ []
c_str-pad zero (c ∷ rest) h = refl
c_str-pad zero [] h = absurd (omega arith)
c_str-pad (suc n) rest h = refl

c_str-copy :
    (n k : ℕ) (src rest : List ℕ)
    → n ≤ k
    → NulFree src
    → 0 < length rest
    → c_str (set (take n (src ++ replicate k 0) ++ rest) n 0) ≡ take n src
c_str-copy zero k src (c ∷ rest) le f h = refl
c_str-copy zero k src [] le f h = absurd (omega arith)
c_str-copy (suc n) zero [] rest le f h = absurd (omega arith)
c_str-copy (suc n) (suc k) [] rest le f h = refl
c_str-copy (suc n) k (zero ∷ src) rest le f h = absurd (f.0 refl)
c_str-copy (suc n) k (suc c ∷ src) rest le f h =
    ap (◌∷◌ (suc c)) (c_str-copy n k src rest (omega arith) f.1 h)

pub fill_lem :
    (len : ℕ) (dst src : List ℕ)
    → 0 < len
    → length dst ≡ len
    → NulFree src
    → (length (fill len dst src) ≡ len) × (c_str (fill len dst src) ≡ take (len - 1) src)
unfolding fill
fill_lem len dst src p e f = (
  omega (
    arith,
    length-set (take (len - 1) (src ++ replicate (len - 1) 0) ++ drop (len - 1) dst) (len - 1) 0,
    length-append (take (len - 1) (src ++ replicate (len - 1) 0)) (drop (len - 1) dst),
    length-take-pad (len - 1) src (len - 1),
    length-drop (len - 1) dst,
  ),
  c_str-copy (len - 1) (len - 1) src (drop (len - 1) dst) (omega arith) f
      (omega (arith, length-drop (len - 1) dst)),
)

-- The arrays of a block have the sizes that `Message` declares.
pub record Sized (m : Message) : Type 0 where
  pub sender_len : length m.sender ≡ max_sender_len
  pub receiver_len : length m.receiver ≡ max_receiver_len
  pub content_len : length m.content ≡ max_content_len

-- What the new message says.
pub record Says (m : Message) (id now : ℕ) (sender receiver content : List ℕ) (delivered : ℕ)
    : Type 0 where
  pub id_is : m.id ≡ id
  pub time_is : m.time_sent ≡ now
  pub sender_is : c_str m.sender ≡ take 31 sender
  pub receiver_is : c_str m.receiver ≡ take 31 receiver
  pub content_is : c_str m.content ≡ take 943 content
  pub delivered_is : m.delivered ≡ delivered

-- Whatever memory `malloc` hands back, `create_msg` returns a message whose arrays keep their
-- sizes, with the id, the time and the status given, and whose sender, receiver and content read as
-- the first 31, 31 and 943 bytes of the strings given.
pub create_msg_lem :
    (block : Message) (now id : ℕ) (sender receiver content : List ℕ) (delivered : ℕ)
    → Sized block
    → NulFree sender
    → NulFree receiver
    → NulFree content
    → (m : Message) × (create_msg (some block) now id sender receiver content delivered ≡ some m)
      × Sized m
      × Says m id now sender receiver content delivered
unfolding create_msg
create_msg_lem block now id sender receiver content delivered z f g h =
    let a = fill_lem 32 block.sender sender (omega arith) z.sender_len f in
    let b = fill_lem 32 block.receiver receiver (omega arith) z.receiver_len g in
    let c = fill_lem 944 block.content content (omega arith) z.content_len h in
    (
      _,
      refl,
      record { sender_len = a.0; receiver_len = b.0; content_len = c.0 },
      record {
        id_is = refl;
        time_is = refl;
        sender_is = a.1;
        receiver_is = b.1;
        content_is = c.1;
        delivered_is = refl;
      },
    )
