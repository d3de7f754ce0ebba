-- ===== src/LoadMem/Tests.antt =====
-- week4/loadmem.c at concrete lines.
use cs5600_computer_system.Common.{ℕ, ◌+◌, ◌≡◌, refl, arith, true, some, List, [], ◌∷◌, length, map}
use cs5600_computer_system.Common.Int.{ℤ, pos, negsuc}
use cs5600_computer_system.Common.Lines.{fgets_lines}
use cs5600_computer_system.Common.Text.{codes}
use cs5600_computer_system.LoadMem.{
  printed, overflows, load_line, main, sscanf_int, count_ints, alloc_dyn_block, read_ints,
  print_dyn_block, store_mem_blk,
}
use cs5600_computer_system.LoadMem.Reload.{text, main-text}
use cs5600_computer_system.LoadMem.Blocks.{blank_doubles}

abbrev file : List ℕ
file = codes "10 -2  +3 x 4\n\n 7\n8"

main_prints :
    main (λ n. true) (some file)
    ≡ some (
        printed (pos 10 ∷ negsuc 1 ∷ pos 3 ∷ [])
        ∷ printed []
        ∷ printed (pos 7 ∷ pos 7 ∷ [])
        ∷ printed (pos 8 ∷ [])
        ∷ [])
unfolding main fgets_lines load_line sscanf_int count_ints alloc_dyn_block read_ints print_dyn_block
main_prints = refl

-- A NUL ends the numbers of a line; a number beyond int leaves it undefined.
nul_ends :
    main (λ n. true) (some (49 ∷ (0 ∷ (32 ∷ (50 ∷ (10 ∷ codes "5000000000 3"))))))
    ≡ some (printed (pos 1 ∷ []) ∷ (overflows ∷ []))
unfolding main fgets_lines load_line sscanf_int count_ints alloc_dyn_block read_ints print_dyn_block
nul_ends = refl

-- A block keeps what `store_mem_blk` does not overwrite.
store_keeps :
    store_mem_blk (some (pos 1) ∷ (some (pos 2) ∷ [])) (pos 5 ∷ [])
    ≡ some (some (pos 5) ∷ (some (pos 2) ∷ []))
unfolding store_mem_blk
store_keeps = refl

prints_12 :
    load_line (length (codes "12 3") + 1) true true (codes "12 3") ≡ printed (pos 12 ∷ (pos 3 ∷ []))
unfolding load_line sscanf_int count_ints alloc_dyn_block read_ints print_dyn_block
prints_12 = refl

blank_doubles_example :
    load_line (length (codes "12 3") + 2) true true (codes " 12 3")
    ≡ printed (pos 12 ∷ (pos 12 ∷ (pos 3 ∷ [])))
blank_doubles_example = blank_doubles b'1' (codes "2 3") (pos 12) (pos 3 ∷ []) refl prints_12

abbrev blocks : List (List ℤ)
blocks = (pos 10 ∷ (negsuc 11 ∷ (pos 0 ∷ []))) ∷ ([] ∷ ((pos 7 ∷ []) ∷ []))

blocks_text : text blocks ≡ codes "10 -12 0 \n\n7 \n"
blocks_text = refl

main-text_example : main (λ n. true) (some (text blocks)) ≡ some (map printed blocks)
main-text_example =
    main-text blocks
      (omega arith, (refl, (refl, (refl, tt))), (omega arith, tt, (omega arith, (refl, tt), tt)))
