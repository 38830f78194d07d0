-- ===== src/Buffer/Heap.antt =====
-- `move_to_heap`, for all five implementations at once.
use alkahest.Prelude.{
  ◌+◌, ◌≡◌, refl, ap, ◌∙◌, ◌++◌, true, false, length, arith, length-append, le→leb,
}
use alkahest.Prelude.Words.{Bytes}
use alkahest.Sizes.{Sizes, total}
use alkahest.Buffer.{
  Buffer, dry_buffer, checked_fixed_buffer, slice_buffer, maybe_fixed_buffer, vec_buffer,
  move_to_heap,
}
use alkahest.Buffer.Holds.{
  Frame, frame, checked_frame, slice_frame, maybe_frame, Content, Holds, Ensures, Post, Room,
}
use alkahest.Buffer.Slices.{move_in_slice_lem}
use alkahest.Buffer.Laws.{Laid-length, at_frame}

module _ (z z' : Sizes) (H M S : Bytes) (eh : z.heap ≡ length H) (es : z.stack ≡ length (M ++ S))
    (eh' : z'.heap ≡ length (H ++ M)) (es' : z'.stack ≡ length S) where
  move_to_heap-frame :
      (b : Buffer)
      → Content b H (M ++ S)
      → Room (frame b) (total z)
      → Post
          (frame b)
          (total z)
          (λ b'. Holds (frame b) b' z' (H ++ M) S)
          (move_to_heap b z.heap z.stack (length M))
  unfolding move_to_heap
  move_to_heap-frame dry_buffer c room =
      (tt, record { same = refl; heap = eh'; stack = es'; content = tt })
  move_to_heap-frame (checked_fixed_buffer buf) c room =
      let len = Laid-length buf H (M ++ S) c in
      let (buf', r, l, e) =
        move_in_slice_lem buf H c.0 M S z.heap z.stack (length M) c.1 eh (es ∙ length-append M S)
          refl in
      rw (le→leb (z.heap + z.stack) (length buf) (omega arith), r)
        (omega arith, record { same = ap checked_frame e; heap = eh'; stack = es'; content = l })
  move_to_heap-frame (slice_buffer buf) c room =
      let len = Laid-length buf H (M ++ S) c in
      let (buf', r, l, e) =
        move_in_slice_lem buf H c.0 M S z.heap z.stack (length M) c.1 eh (es ∙ length-append M S)
          refl in
      rw
        (
          le→leb (length M) z.stack (omega (arith, length-append M S)),
          le→leb (z.heap + z.stack) (length buf) (omega arith),
          r,
        )
        (omega arith, record { same = ap slice_frame e; heap = eh'; stack = es'; content = l })
  move_to_heap-frame (maybe_fixed_buffer buf true) c room =
      rw (le→leb (length M) z.stack (omega (arith, length-append M S))) (
        tt,
        record {
          same = refl;
          heap = eh';
          stack = es';
          content = omega (arith, length-append M S, length-append H M);
        },
      )
  move_to_heap-frame (maybe_fixed_buffer buf false) c room =
      let len = Laid-length buf H (M ++ S) c in
      let (buf', r, l, e) =
        move_in_slice_lem buf H c.0 M S z.heap z.stack (length M) c.1 eh (es ∙ length-append M S)
          refl in
      rw
        (
          le→leb (length M) z.stack (omega (arith, length-append M S)),
          le→leb (z.heap + z.stack) (length buf) (omega arith),
          r,
        )
        (tt, record { same = ap maybe_frame e; heap = eh'; stack = es'; content = l })
  move_to_heap-frame (vec_buffer buf) c room =
      let len = Laid-length buf H (M ++ S) c in
      let (buf', r, l, e) =
        move_in_slice_lem buf H c.0 M S z.heap z.stack (length M) c.1 eh (es ∙ length-append M S)
          refl in
      rw
        (
          le→leb (z.heap + z.stack) (length buf) (omega arith),
          le→leb (length M) z.stack (omega (arith, length-append M S)),
          r,
        )
        (tt, record { same = refl; heap = eh'; stack = es'; content = l })

-- The newest `length M` bytes of the stack become the newest bytes of the heap.
pub move_to_heap-Ensures :
    {k : Frame} {b : Buffer} {z : Sizes} {H S : Bytes} (z' : Sizes) (M : Bytes)
    → Holds k b z H (M ++ S)
    → z'.heap ≡ z.heap + length M
    → z'.stack + length M ≡ z.stack
    → Ensures k
        (total z)
        (λ b'. Holds k b' z' (H ++ M) S)
        (move_to_heap b z.heap z.stack (length M))
move_to_heap-Ensures {b} {z} {H} {S} z' M h p q =
    at_frame (λ k' b'. Holds k' b' z' (H ++ M) S) h.same
      (move_to_heap-frame z z' H M S h.heap h.stack (omega (arith, h.heap, length-append H M))
        (omega (arith, h.stack, length-append M S)) b h.content)

-- For a buffer that holds a heap and a stack: `move_to_heap` never panics; it fails only if the
-- buffer is a checked one that is too short for what it holds; else it moves the newest bytes of
-- the stack to the end of the heap, and keeps the rest of both.
pub move_to_heap-Post :
    {k : Frame} {b : Buffer} {z : Sizes} (z' : Sizes) (H M S : Bytes)
    → Holds k b z H (M ++ S)
    → z'.heap ≡ z.heap + length M
    → z'.stack + length M ≡ z.stack
    → Room k (total z)
    → Post k (total z) (λ b'. Holds k b' z' (H ++ M) S) (move_to_heap b z.heap z.stack (length M))
move_to_heap-Post z' H M S h p q room = (move_to_heap-Ensures z' M h p q).post room
