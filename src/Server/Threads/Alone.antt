-- ===== src/Server/Threads/Alone.antt =====
-- A client thread of practicum2/server.c that runs with no other: its turns come to what its handler
-- does in one piece.
use cs5600_computer_system.Common.{
  ℕ, zero, suc, ◌≡◌, refl, sym, ap, ◌∙◌, subst, some, List, [], ◌++◌, append_assoc, append-nil,
  ◌==◌, Bool-cases, inl, inr,
}
use cs5600_computer_system.Server.{Server, Bytes, Os}
use cs5600_computer_system.Server.Threads.Files.{Unlocked, files_of, put_here}
use cs5600_computer_system.Server.Threads.{
  Ino, put, Lock, free, unlock, System, Pc, finished, unlocked, turn, Thread, move_thread,
}

-- The state that the handlers work on in one piece, with the files compared by name.
abbrev pub Same : System → Server → Type 0
Same s srv =
    (s.table ≡ srv.table) × (s.resolve ≡ srv.resolve) × ((q : Bytes) → files_of s q ≡ srv.files q)

abbrev pub thread : Os → Pc → List Bytes → Thread
thread os pc sent = record { os = os; pc = pc; sent = sent }

-- A number of turns.
abbrev pub alone : ℕ → Thread → System → Thread × System
alone zero t s = (t, s)
alone (suc n) t s = alone n (move_thread t s).0 (move_thread t s).1

-- After so many turns the thread is done, has sent what the handler sends, and left what it leaves.
pub record RunsTo (n : ℕ) (os : Os) (pc : Pc) (s : System) (reply : Server × List Bytes)
    : Type 0 where
  pub end : System
  pub runs :
      (sent : List Bytes)
      → alone n (thread os pc sent) s ≡ (thread os finished (sent ++ reply.1), end)
  pub same : Same end reply.0
  pub unlocked_end : Unlocked end

-- A thread that ends with one answer ends with an equal one.
pub ends_as :
    (n : ℕ) (os : Os) (pc : Pc) (s : System) (r r' : Server × List Bytes)
    → r' ≡ r
    → RunsTo n os pc s r
    → RunsTo n os pc s r'
ends_as n os pc s r r' e h = subst (RunsTo n os pc s) (sym e) h

pub ends_step :
    (n : ℕ) (os : Os) (pc : Pc) (s : System) (pc' : Pc) (s' : System) (out : List Bytes)
    (srv : Server) (reply : List Bytes)
    → turn os pc s ≡ some (pc', s', out)
    → RunsTo n os pc' s' (srv, reply)
    → RunsTo (suc n) os pc s (srv, out ++ reply)
ends_step n os pc s pc' s' out srv reply e h = record {
  end = h.end;
  runs = λ sent.
      rw (alone, e)
        (h.runs (sent ++ out)
          ∙ ap (λ l. (thread os finished l, h.end)) (append_assoc sent out reply));
  same = h.same;
  unlocked_end = h.unlocked_end;
}

-- A turn in which nothing is sent.
pub ends_on :
    (n : ℕ) (os : Os) (pc : Pc) (s : System) (pc' : Pc) (s' : System) (r : Server × List Bytes)
    → turn os pc s ≡ some (pc', s', [])
    → RunsTo n os pc' s' r
    → RunsTo (suc n) os pc s r
ends_on n os pc s pc' s' r e h = ends_step n os pc s pc' s' [] r.0 r.1 e h

pub alone_finished :
    (n : ℕ) (os : Os) (sent : List Bytes) (s : System)
    → alone n (thread os finished sent) s ≡ (thread os finished sent, s)
unfolding turn
alone_finished zero os sent s = refl
alone_finished (suc n) os sent s = alone_finished n os sent s

pub ends_finished :
    (n : ℕ) (os : Os) (s : System) (srv : Server)
    → Same s srv
    → Unlocked s
    → RunsTo n os finished s (srv, [])
ends_finished n os s srv same un = record {
  end = s;
  runs = λ sent.
      alone_finished n os sent s ∙ ap (λ l. (thread os finished l, s)) (sym (append-nil sent));
  same = same;
  unlocked_end = un;
}

-- The last turn of a thread that sends its answers then.
pub ends_last :
    (n : ℕ) (os : Os) (pc : Pc) (s s' : System) (srv : Server) (reply : List Bytes)
    → turn os pc s ≡ some (finished, s', reply)
    → Same s' srv
    → Unlocked s'
    → RunsTo (suc n) os pc s (srv, reply)
ends_last n os pc s s' srv reply e same un =
    subst (λ r. RunsTo (suc n) os pc s (srv, r)) (append-nil reply)
      (ends_step n os pc s finished s' reply srv [] e (ends_finished n os s' srv same un))

-- The lock that is given back was the only one.
unlocked_again :
    (locks : Ino → Lock) (i : Ino) (l m : Lock)
    → ((j : Ino) → locks j ≡ free)
    → m ≡ free
    → (j : Ino) → put (put locks i l) i m j ≡ free
unlocked_again locks i l m un e j = elim (Bool-cases (i == j)) [
  | inl here ↦ rw here e
  | inr there ↦ rw there (un j)
]

abbrev pub with_lock : System → Ino → Lock → System
with_lock s i l = record s { locks = put s.locks i l }

pub ends_unlock :
    (n : ℕ) (os : Os) (pc : Pc) (s : System) (i : Ino) (l : Lock) (srv : Server)
    (reply : List Bytes)
    → turn os pc (with_lock s i l) ≡ unlocked (with_lock s i l) i reply
    → unlock l ≡ free
    → Same s srv
    → Unlocked s
    → RunsTo (suc n) os pc (with_lock s i l) (srv, reply)
ends_unlock n os pc s i l srv reply e f same un =
    ends_last n os pc (with_lock s i l) (with_lock (with_lock s i l) i (unlock (put s.locks i l i)))
      srv reply e same
      (unlocked_again s.locks i l (unlock (put s.locks i l i)) un
        (ap unlock (put_here s.locks i l) ∙ f))
