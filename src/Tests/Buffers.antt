-- ===== src/Tests/Buffers.antt =====
-- The methods of the buffers at small buffers.
use alkahest.Prelude.{◌+◌, ◌<◌, refl, arith, [], ◌∷◌}
use alkahest.Formula.{usize_limit, size_stack}
use alkahest.Sizes.{Sizes, add_stack, total}
use alkahest.Buffer.{Buffer, checked_fixed_buffer, vec_buffer, write_stack, pad_stack, move_to_heap}
use alkahest.Buffer.Holds.{checked_frame, vec_frame, Holds, Post}
use alkahest.Buffer.Laws.{write_stack-Post, pad_stack-Post, Padded}
use alkahest.Buffer.Heap.{move_to_heap-Post}

small : 6 < usize_limit
unfolding usize_limit size_stack
small = omega arith

-- One byte of heap and one byte of stack in a vector of three: it grows.
abbrev vector : Buffer
vector = vec_buffer (7 ∷ 0 ∷ 8 ∷ [])

abbrev sizes : Sizes
sizes = record { heap = 1; stack = 1 }

vector-Holds : Holds vec_frame vector sizes (7 ∷ []) (8 ∷ [])
vector-Holds = record { same = refl; heap = refl; stack = refl; content = (0 ∷ [], refl) }

write_stack_example :
    Post vec_frame
      (total sizes + 4)
      (λ b'. Holds vec_frame b' (add_stack sizes 4) (7 ∷ []) (1 ∷ 2 ∷ 3 ∷ 4 ∷ 8 ∷ []))
      (write_stack vector sizes.heap sizes.stack (1 ∷ 2 ∷ 3 ∷ 4 ∷ []))
write_stack_example =
    write_stack-Post (7 ∷ []) (8 ∷ []) (1 ∷ 2 ∷ 3 ∷ 4 ∷ []) vector-Holds
      (record { within = tt; small = small })

pad_stack_example :
    Post vec_frame
      (total sizes + 4)
      (Padded 4 sizes (7 ∷ []) (8 ∷ []) vec_frame)
      (pad_stack vector sizes.heap sizes.stack 4)
pad_stack_example =
    pad_stack-Post (7 ∷ []) (8 ∷ []) 4 vector-Holds (record { within = tt; small = small })

-- Two of three bytes of the stack are moved.
abbrev three : Buffer
three = checked_fixed_buffer (7 ∷ 0 ∷ 1 ∷ 2 ∷ 8 ∷ [])

three-Holds :
    Holds (checked_frame 5) three (record { heap = 1; stack = 3 }) (7 ∷ []) (1 ∷ 2 ∷ 8 ∷ [])
three-Holds = record { same = refl; heap = refl; stack = refl; content = (0 ∷ [], refl) }

move_to_heap_example :
    Post
      (checked_frame 5)
      4
      (λ b'. Holds (checked_frame 5) b' (record { heap = 3; stack = 1 }) (7 ∷ 1 ∷ 2 ∷ []) (8 ∷ []))
      (move_to_heap three 1 3 2)
move_to_heap_example =
    move_to_heap-Post (record { heap = 3; stack = 1 }) (7 ∷ []) (1 ∷ 2 ∷ []) (8 ∷ []) three-Holds
      refl refl (record { within = tt; small = omega (arith, small) })
