-- ===== src/Server/Dispatch.antt =====
-- How practicum2/server.c splits the commands that practicum2/client.c sends, and which handler
-- each one reaches.
use cs5600_computer_system.Common.{
  ◌-◌, ◌<◌, ◌≡◌, ◌≢◌, refl, sym, subst, ap, ◌∙◌, arith, false, some, List, [], ◌∷◌, ◌++◌, length,
  take_all, append_assoc, append-nil,
}
use cs5600_computer_system.Server.{
  Server, Os, Bytes, buf_size, is_blank, words, text_of, handle_words, client_thread,
}

-- No byte is a blank or a NUL.
abbrev pub Plain : Bytes → Type 0
Plain [] = Unit {0}
Plain (c ∷ w) = (is_blank c ≡ false) × (c ≢ 0) × Plain w

-- A plain word with at least one byte.
abbrev pub Word : Bytes → Type 0
Word w = (w ≢ []) × Plain w

abbrev pub AllWords : List Bytes → Type 0
AllWords [] = Unit {0}
AllWords (w ∷ ws) = Word w × AllWords ws

-- The words with a space between them.
abbrev pub join : List Bytes → Bytes
join [] = []
join (w ∷ []) = w
join (w ∷ v ∷ ws) = w ++ (b' ' ∷ join (v ∷ ws))

words-Plain : (acc w rest : Bytes) → Plain w → words acc (w ++ rest) ≡ words (acc ++ w) rest
unfolding words
words-Plain acc [] rest p = ap (λ a. words a rest) (sym (append-nil acc))
words-Plain acc (c ∷ w) rest p = rw p.0 (
    words-Plain (acc ++ (c ∷ [])) w rest p.2 ∙ ap (λ a. words a rest) (append_assoc acc (c ∷ []) w))

text_of-Plain : (w rest : Bytes) → Plain w → text_of (w ++ rest) ≡ w ++ text_of rest
text_of-Plain [] rest p = refl
text_of-Plain (c ∷ w) rest p = ground (arith, p, text_of-Plain w rest)

pub text_of-join : (ws : List Bytes) → AllWords ws → text_of (join ws) ≡ join ws
text_of-join [] p = refl
text_of-join (w ∷ []) p = subst (λ r. text_of r ≡ r) (append-nil w) (text_of-Plain w [] p.0.1)
text_of-join (w ∷ v ∷ ws) p =
    text_of-Plain w (b' ' ∷ join (v ∷ ws)) p.0.1
    ∙ ap (λ r. w ++ (b' ' ∷ r)) (text_of-join (v ∷ ws) p.1)

words-end : (w : Bytes) → w ≢ [] → words w [] ≡ w ∷ []
unfolding words
words-end [] h = absurd (h refl)
words-end (c ∷ w) h = ground arith

words-space : (w rest : Bytes) → w ≢ [] → words w (b' ' ∷ rest) ≡ w ∷ words [] rest
unfolding words
words-space [] rest h = absurd (h refl)
words-space (c ∷ w) rest h = ground arith

-- For plain words, none of them empty, the calls of `strtok` recover the words from their
-- concatenation with single spaces.
pub words-join : (ws : List Bytes) → AllWords ws → words [] (join ws) ≡ ws
words-join [] p = no_words
  where
    no_words : words [] [] ≡ []
    no_words = unfold words in refl
words-join (w ∷ []) p =
    subst (λ r. words [] r ≡ w ∷ []) (append-nil w) (words-Plain [] w [] p.0.1 ∙ words-end w p.0.0)
words-join (w ∷ v ∷ ws) p =
    words-Plain [] w (b' ' ∷ join (v ∷ ws)) p.0.1
    ∙ words-space w (join (v ∷ ws)) p.0.0
    ∙ ap (◌∷◌ w) (words-join (v ∷ ws) p.1)

-- A connection whose text is such a command reaches the handlers with those words.
pub client_thread-join :
    (os : Os) (ws : List Bytes) (s : Server)
    → AllWords ws
    → length (join ws) < buf_size
    → client_thread os (some (join ws)) s ≡ handle_words os ws s
unfolding client_thread
client_thread-join os ws s p h =
    rw (take_all (buf_size - 1) (join ws) (omega arith), text_of-join ws p, words-join ws p)
