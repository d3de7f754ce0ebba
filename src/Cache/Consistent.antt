-- ===== src/Cache/Consistent.antt =====
-- The cache of practicum1/cache.c and the files of practicum1/message.c: what the cached messages have to do with the files.
use cs5600_computer_system.Common.{ℕ, ◌≡◌, refl, arith, false, none, some, [], ◌∷◌, ◌++◌, ◌==◌}
use cs5600_computer_system.Message.{Message, Files, whole}
use cs5600_computer_system.Cache.Lru.{Entries, lookup, drop_key, make_room}

-- No id is cached twice, and the cached messages are those on the disk.
unfoldable pub Good : Files → Entries → Type 0
Good d [] = Unit {0}
Good d ((k, v) ∷ es) = (d k ≡ some (whole v)) × (lookup k es ≡ none) × Good d es

pub lookup-Good :
    (d : Files) (k : ℕ) (v : Message) (es : Entries)
    → Good d es
    → lookup k es ≡ some v
    → d k ≡ some (whole v)
unfolding Good
lookup-Good d k v [] g e = ground arith
lookup-Good d k v ((j, w) ∷ es) g e = ground (arith, g, lookup-Good d k v es g.2)

pub lookup-drop_key-none :
    (j k : ℕ) (es : Entries) → lookup j es ≡ none → lookup j (drop_key k es) ≡ none
lookup-drop_key-none j k [] h = refl
lookup-drop_key-none j k ((i, w) ∷ es) h = ground (arith, lookup-drop_key-none j k es)

pub lookup-drop_key :
    (d : Files) (k : ℕ) (es : Entries) → Good d es → lookup k (drop_key k es) ≡ none
unfolding Good
lookup-drop_key d k [] g = refl
lookup-drop_key d k ((i, w) ∷ es) g = ground (arith, g, lookup-drop_key d k es g.2)

pub drop_key-Good : (d : Files) (k : ℕ) (es : Entries) → Good d es → Good d (drop_key k es)
unfolding Good
drop_key-Good d k [] g = g
drop_key-Good d k ((i, w) ∷ es) g =
    ground (arith, g, lookup-drop_key-none i k es, drop_key-Good d k es g.2)

pub lookup-append-none :
    (j k : ℕ) (v : Message) (es : Entries)
    → lookup j es ≡ none
    → (k == j) ≡ false
    → lookup j (es ++ ((k, v) ∷ [])) ≡ none
lookup-append-none j k v [] h n = ground arith
lookup-append-none j k v ((i, w) ∷ es) h n = ground (arith, lookup-append-none j k v es)

pub append-Good :
    (d : Files) (k : ℕ) (v : Message) (es : Entries)
    → Good d es
    → d k ≡ some (whole v)
    → lookup k es ≡ none
    → Good d (es ++ ((k, v) ∷ []))
unfolding Good
append-Good d k v [] g e h = (e, refl, tt)
append-Good d k v ((i, w) ∷ es) g e h =
    ground (arith, g, append-Good d k v es g.2 e, lookup-append-none i k v es g.1)

pub make_room-Good : (d : Files) (es : Entries) → Good d es → Good d (make_room es)
unfolding Good
make_room-Good d [] g = g
make_room-Good d (e ∷ es) g = ground (arith, g)

pub lookup-make_room-none :
    (k : ℕ) (es : Entries) → lookup k es ≡ none → lookup k (make_room es) ≡ none
lookup-make_room-none k [] h = refl
lookup-make_room-none k ((i, w) ∷ es) h = ground arith

-- A file that is not cached may change.
pub store-Good :
    (d d' : Files) (k : ℕ) (es : Entries)
    → Good d es
    → lookup k es ≡ none
    → ((j : ℕ) → (j == k) ≡ false → d' j ≡ d j)
    → Good d' es
unfolding Good
store-Good d d' k [] g h same = tt
store-Good d d' k ((i, w) ∷ es) g h same = ground (arith, g, same i, store-Good d d' k es g.2)
