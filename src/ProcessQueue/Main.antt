-- ===== src/ProcessQueue/Main.antt =====
-- The `main` of week5/queuetest.c, with what it prints. The processes are values here, so its calls
-- of `free` on them, which each get a process that left the queue, have no counterpart.
use cs5600_computer_system.Common.{ℕ, Bool, Option, none, some, List, [], ◌∷◌}
use cs5600_computer_system.Common.Int.{ℤ, pos}
use cs5600_computer_system.Common.Text.{codes}
use cs5600_computer_system.ProcessQueue.{
  Process, Queue, Run, ok, fault, hangs, create_queue, push_queue, pop_queue, remove_process,
  get_queue_size, destroy_queue,
}

-- The lines with a value: the three sizes, and the two processes.
pub data Line : Type 0 where
  size_now : ℕ → Line
  popped : ℤ → List ℕ → ℤ → Line
  size_after_pop : ℕ → Line
  removed : ℤ → List ℕ → ℤ → Line
  size_after_remove : ℕ → Line

-- The exit status, the lines, and the heap at the end.
pub record Result : Type 0 where
  pub status : ℕ
  pub lines : List Line
  pub heap : Option Queue

abbrev pub p1 : Process
p1 = record { id = pos 1; name = codes "ProcA"; runtime = pos 1000; priority = pos 2 }

abbrev pub p2 : Process
p2 = record { id = pos 2; name = codes "ProcB"; runtime = pos 500; priority = pos 5 }

abbrev pub p3 : Process
p3 = record { id = pos 3; name = codes "ProcC"; runtime = pos 300; priority = pos 1 }

-- A call, and what follows it.
abbrev pub and_then {ℓ} : {A B : Type ℓ} → Run A → (A → Run B) → Run B
and_then (ok a) f = f a
and_then fault f = fault
and_then hangs f = hangs

abbrev pub popped_line : Option Process → List Line → List Line
popped_line none lines = lines
popped_line (some p) lines = popped p.id p.name p.priority ∷ lines

abbrev pub removed_line : Option Process → List Line → List Line
removed_line none lines = lines
removed_line (some p) lines = removed p.id p.name p.priority ∷ lines

-- `main` from the queue on; the Booleans say whether `malloc` succeeds for each node.
unfoldable pub use_of_main : Bool → Bool → Bool → Option Queue → Run Result
use_of_main m1 m2 m3 q = and_then (push_queue m1 q p1) λ q1. and_then (push_queue m2 q1 p2) λ q2.
    and_then (push_queue m3 q2 p3) λ q3. and_then (pop_queue q3) λ (front, q4).
      and_then (remove_process q4) λ (high, q5). and_then (pop_queue q5) λ (remaining, q6).
        and_then (destroy_queue q6) λ heap.
          let lines =
            size_now (get_queue_size q3)
            ∷ popped_line front (
                size_after_pop (get_queue_size q4)
                ∷ removed_line high (size_after_remove (get_queue_size q5) ∷ [])) in
          ok (record { status = 0; lines = lines; heap = heap })

-- `main`: 1 if there is no memory for the queue. The processes get theirs.
unfoldable pub main : Bool → Bool → Bool → Bool → Queue → Run Result
main m0 m1 m2 m3 heap = elim (create_queue m0 heap) [
  | none ↦ ok (record { status = 1; lines = []; heap = some heap })
  | some q ↦ use_of_main m1 m2 m3 (some q)
]
