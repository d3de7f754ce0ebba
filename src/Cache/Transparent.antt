-- ===== src/Cache/Transparent.antt =====
-- The cache of practicum1/cache.c against the disk of practicum1/message.c alone.
use cs5600_computer_system.Common.{
  ℕ, ◌≡◌, refl, sym, subst, ap, ◌∙◌, arith, true, Option, none, some, List, [], ◌∷◌, Option-cases,
  inl, inr, ℕ_discrete, ap₂, ◌+◌,
}
use cs5600_computer_system.Message.{
  Message, Files, File, whole, torn, Io, update, store_msg, retrieve_msg, read_whole,
}
use cs5600_computer_system.Cache.{Ptr, Cache, ok, init_cache}
use cs5600_computer_system.Cache.Invariant.{FilesMatch}
use cs5600_computer_system.Cache.Lru.{
  Lru, Entries, Request, fetch, store, lookup, drop_key, make_room, use_entry, put, load, get,
}
use cs5600_computer_system.Cache.Consistent.{
  Good, lookup-Good, lookup-drop_key, drop_key-Good, append-Good, make_room-Good,
  lookup-make_room-none, store-Good,
}
use cs5600_computer_system.Cache.Requests.{serve, answers, AllSmall, cache_refines_lru}

-- Every system call works.
abbrev pub works : Io
works = record {
  opens_write = true;
  writes = true;
  flushes = true;
  opens_read = true;
  allocates = true;
}

abbrev pub working : List Request → List (Io × Request)
working [] = []
working (r ∷ rs) = (works, r) ∷ working rs

-- The requests served from the disk, without a cache: what the fetches return, and the files.
unfoldable pub disk_answers : List Request → Files → List (Option Message) × Files
disk_answers [] d = ([], d)
disk_answers (fetch id ∷ rs) d =
    let (later, d') = disk_answers rs d in (retrieve_msg works id d ∷ later, d')
disk_answers (store msg ∷ rs) d = disk_answers rs (store_msg works (some msg) d).1

record Agrees (d : Files) (l : Lru) : Type 0 where
  good : Good d l.entries
  same : (j : ℕ) → l.files j ≡ d j

put-Agrees :
    (msg : Message) (d : Files) (l : Lru)
    → Agrees d l
    → Agrees (update d msg.id (whole msg)) (put works msg l)
unfolding put store_msg
put-Agrees msg d l a =
    let d' = update d msg.id (whole msg) in
    let new : d' msg.id ≡ some (whole msg) = ground arith in
    elim (Option-cases (lookup msg.id l.entries)) [
      | inl missing ↦
          let es = make_room l.entries in
          let free = lookup-make_room-none msg.id l.entries missing in
          let g =
            store-Good d d' msg.id es (make_room-Good d l.entries a.good) free
              (λ j h. ground arith) in
          record {
            good =
                subst (Good d') (ground (arith, missing)) (append-Good d' msg.id msg es g new free);
            same = λ j. ground (arith, a.same j);
          }
      | inr (v, found) ↦
          let es = drop_key msg.id l.entries in
          let free = lookup-drop_key d msg.id l.entries a.good in
          let g =
            store-Good d d' msg.id es (drop_key-Good d msg.id l.entries a.good) free
              (λ j h. ground arith) in
          record {
            good =
                subst (Good d') (ground (arith, found)) (append-Good d' msg.id msg es g new free);
            same = λ j. ground (arith, a.same j);
          }
    ]

-- The same files under another name.
same-Good : (d d' : Files) (es : Entries) → Good d es → ((j : ℕ) → d' j ≡ d j) → Good d' es
unfolding Good
same-Good d d' [] g same = tt
same-Good d d' ((i, w) ∷ es) g same = ((same i ∙ g.0), g.1, same-Good d d' es g.2 same)

read_whole-some : (f : Option File) (m : Message) → read_whole f ≡ some m → f ≡ some (whole m)
read_whole-some none m e = ground arith
read_whole-some (some torn) m e = ground arith
read_whole-some (some (whole msg)) m e = ground arith

-- A message that is stored where it stands already.
update_same :
    (d : Files) (id : ℕ) (msg : Message) (j : ℕ)
    → d id ≡ some (whole msg)
    → msg.id ≡ id
    → update d msg.id (whole msg) j ≡ d j
update_same d id msg j e n = elim (ℕ_discrete j id) [
  | yes same ↦ rw same (ground (arith, e, n))
  | no other ↦ ground (arith, n)
]

get-Agrees :
    (id : ℕ) (d : Files) (l : Lru)
    → Agrees d l
    → FilesMatch d
    → ((get works id l).0 ≡ retrieve_msg works id d) × Agrees d (get works id l).1
unfolding get load retrieve_msg
get-Agrees id d l a named = elim (Option-cases (lookup id l.entries)) [
  | inl missing ↦ elim (Option-cases (read_whole (l.files id))) [
    | inl nothing ↦
        let e : get works id l ≡ (none, record l { misses = l.misses + 1 }) =
          ground (arith, missing, nothing) in
        (
          ap (λ r. r.0) e ∙ (sym nothing ∙ ap read_whole (a.same id)),
          subst (λ r. Agrees d r.1) (sym e) (record { good = a.good; same = a.same }),
        )
    | inr (msg, found) ↦
        let missed : Lru = record l { misses = l.misses + 1 } in
        let e : get works id l ≡ (some msg, put works msg missed) =
          ground (arith, missing, found) in
        let on_disk : d id ≡ some (whole msg) =
          sym (a.same id) ∙ read_whole-some (l.files id) msg found in
        let n = named id msg on_disk in
        let p = put-Agrees msg d missed (record { good = a.good; same = a.same }) in
        (
          ap (λ r. r.0) e ∙ sym (ap read_whole on_disk),
          subst (λ r. Agrees d r.1) (sym e)
              (record {
                good =
                    same-Good (update d msg.id (whole msg)) d (put works msg missed).entries p.good
                      (λ j. sym (update_same d id msg j on_disk n));
                same = λ j. p.same j ∙ update_same d id msg j on_disk n;
              }),
        )
  ]
  | inr (v, found) ↦
      let on_disk = lookup-Good d id v l.entries a.good found in
      let hit : Lru = record l { entries = use_entry id v l.entries; hits = l.hits + 1 } in
      let e : get works id l ≡ (some v, hit) = ground (arith, found) in
      (
        ap (λ r. r.0) e ∙ sym (ap read_whole on_disk),
        subst (λ r. Agrees d r.1) (sym e)
            (record {
              good =
                  append-Good d id v (drop_key id l.entries) (drop_key-Good d id l.entries a.good)
                    on_disk (lookup-drop_key d id l.entries a.good);
              same = a.same;
            }),
      )
]

answers-Agrees :
    (rs : List Request) (d : Files) (l : Lru)
    → Agrees d l
    → FilesMatch d
    → ((answers (working rs) l).0 ≡ (disk_answers rs d).0)
      × ((j : ℕ) → (answers (working rs) l).1.files j ≡ (disk_answers rs d).1 j)
unfolding answers disk_answers store_msg
answers-Agrees [] d l a named = (refl, a.same)
answers-Agrees (fetch id ∷ rs) d l a named =
    let g = get-Agrees id d l a named in
    let rest = answers-Agrees rs d (get works id l).1 g.1 named in (ap₂ ◌∷◌ g.0 rest.0, rest.1)
answers-Agrees (store msg ∷ rs) d l a named =
    answers-Agrees rs (update d msg.id (whole msg)) (put works msg l) (put-Agrees msg d l a)
      (λ id m e. ground (arith, named id m))

-- Where every system call works, and each file holds the message of its name: any sequence of fetches
-- and stores of ids below 103, from `init_cache` on, ends without a fault, each fetch returns what
-- `retrieve_msg` would return without a cache, and the files are in the end what `store_msg` makes of
-- them.
pub cache_transparent :
    (key : Ptr → ℕ) (value : Ptr → Message) (prev next : Ptr → Ptr) (files : Files)
    (rs : List Request)
    → FilesMatch files
    → AllSmall (working rs)
    → (t : Cache) × (serve (working rs) (init_cache key value prev next files)
        ≡ ok (disk_answers rs files).0 t)
      × ((j : ℕ) → t.files j ≡ (disk_answers rs files).1 j)
unfolding Good
cache_transparent key value prev next files rs named small =
    let fresh : Lru = record { entries = []; hits = 0; misses = 0; files = files } in
    let e = cache_refines_lru key value prev next files (working rs) named small in
    let a = answers-Agrees rs files fresh (record { good = tt; same = λ j. refl }) named in
    (
      e.state,
      e.ends ∙ ap (λ r. ok r e.state) a.0,
      λ j. ap (λ (l : Lru). l.files j) e.stands ∙ a.1 j,
    )
