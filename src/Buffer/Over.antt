-- ===== src/Buffer/Over.antt =====
-- `write_stack` over bytes that the stack holds already, as `write_field` calls it.
use alkahest.Prelude.{
  ◌+◌, ◌-◌, ◌≡◌, refl, sym, ap, ◌∙◌, ◌++◌, true, false, length, arith, append_assoc, length-append,
  le→leb, le→ltb_false,
}
use alkahest.Prelude.Words.{Bytes}
use alkahest.Outcome.{ok}
use alkahest.Sizes.{Sizes}
use alkahest.Buffer.{
  Buffer, dry_buffer, checked_fixed_buffer, slice_buffer, maybe_fixed_buffer, vec_buffer,
  write_stack, write_before_stack, check_exhausted, reserve,
}
use alkahest.Buffer.Holds.{
  Frame, frame, checked_frame, slice_frame, maybe_frame, Laid, Content, Holds,
}
use alkahest.Buffer.Slices.{write_before_stack_over}
use alkahest.Buffer.Laws.{Laid-length}

module _ (z : Sizes) (H X M S bytes : Bytes) (eh : z.heap ≡ length H)
    (es : z.stack ≡ length (X ++ (M ++ S))) (eb : length M ≡ length bytes) where
  stack_len : z.stack ≡ length X + (length M + length S)
  stack_len = es ∙ omega (arith, length-append X (M ++ S), length-append M S)

  over_len : length (X ++ (bytes ++ S)) ≡ length (X ++ (M ++ S))
  over_len = omega (
    arith,
    length-append X (M ++ S),
    length-append M S,
    length-append X (bytes ++ S),
    length-append bytes S,
  )

  Laid-over :
      (buf : Bytes)
      → Laid buf H (X ++ (M ++ S))
      → (buf' : Bytes) × (write_before_stack buf (length S) bytes ≡ ok buf')
        × Laid buf' H (X ++ (bytes ++ S))
        × (length buf' ≡ length buf)
  Laid-over buf (G, e) =
      let regroup : (T : Bytes) → H ++ (G ++ (X ++ T)) ≡ (H ++ (G ++ X)) ++ T =
        λ T. ap (λ t. H ++ t) (sym (append_assoc G X T)) ∙ sym (append_assoc H (G ++ X) T) in
      (
        (H ++ (G ++ X)) ++ (bytes ++ S),
        write_before_stack_over buf (H ++ (G ++ X)) M S bytes (length S) (e ∙ regroup (M ++ S)) refl
            eb,
        (G, sym (regroup (bytes ++ S))),
        omega (
          arith,
          ap length e,
          ap length (regroup (M ++ S)),
          length-append (H ++ (G ++ X)) (bytes ++ S),
          length-append (H ++ (G ++ X)) (M ++ S),
          length-append bytes S,
          length-append M S,
        ),
      )

  write_stack_over-frame :
      (b : Buffer)
      → Content b H (X ++ (M ++ S))
      → (b' : Buffer) × (write_stack b z.heap (length S) bytes ≡ ok b')
        × Holds (frame b) b' z H (X ++ (bytes ++ S))
  unfolding write_stack check_exhausted reserve
  write_stack_over-frame dry_buffer c =
      (dry_buffer, refl, record { same = refl; heap = eh; stack = es ∙ sym over_len; content = tt })
  write_stack_over-frame (checked_fixed_buffer buf) c =
      let len = Laid-length buf H (X ++ (M ++ S)) c in
      let (buf', r, l, e) = Laid-over buf c in
      (
        checked_fixed_buffer buf',
        rw (
          le→leb (z.heap + length S) (length buf) (omega (arith, stack_len)),
          le→ltb_false (length buf - z.heap - length S) (length bytes) (omega (arith, stack_len)),
          r,
        ),
        record { same = ap checked_frame e; heap = eh; stack = es ∙ sym over_len; content = l },
      )
  write_stack_over-frame (slice_buffer buf) c =
      let len = Laid-length buf H (X ++ (M ++ S)) c in
      let (buf', r, l, e) = Laid-over buf c in
      (
        slice_buffer buf',
        rw (le→leb (z.heap + length S) (length buf) (omega (arith, stack_len)), r),
        record { same = ap slice_frame e; heap = eh; stack = es ∙ sym over_len; content = l },
      )
  write_stack_over-frame (maybe_fixed_buffer buf true) c = (
    maybe_fixed_buffer buf true,
    refl,
    record { same = refl; heap = eh; stack = es ∙ sym over_len; content = omega (arith, over_len) },
  )
  write_stack_over-frame (maybe_fixed_buffer buf false) c =
      let len = Laid-length buf H (X ++ (M ++ S)) c in
      let (buf', r, l, e) = Laid-over buf c in
      (
        maybe_fixed_buffer buf' false,
        rw (
          le→leb (z.heap + length S) (length buf) (omega (arith, stack_len)),
          le→ltb_false (length buf - z.heap - length S) (length bytes) (omega (arith, stack_len)),
          r,
        ),
        record { same = ap maybe_frame e; heap = eh; stack = es ∙ sym over_len; content = l },
      )
  write_stack_over-frame (vec_buffer buf) c =
      let len = Laid-length buf H (X ++ (M ++ S)) c in
      let (buf', r, l, e) = Laid-over buf c in
      (
        vec_buffer buf',
        rw (
          le→leb (z.heap + length S) (length buf) (omega (arith, stack_len)),
          le→ltb_false (length buf - z.heap - length S) (length bytes) (omega (arith, stack_len)),
          r,
        ),
        record { same = refl; heap = eh; stack = es ∙ sym over_len; content = l },
      )

pub write_stack_over :
    {k : Frame} {b : Buffer} {z : Sizes} {H : Bytes} (X M S bytes : Bytes)
    → Holds k b z H (X ++ (M ++ S))
    → length M ≡ length bytes
    → (b' : Buffer) × (write_stack b z.heap (length S) bytes ≡ ok b')
      × Holds k b' z H (X ++ (bytes ++ S))
write_stack_over {b} {z} {H} X M S bytes h e =
    let (b', r, h') = write_stack_over-frame z H X M S bytes h.heap h.stack e b h.content in
    (
      b',
      r,
      record { same = h'.same ∙ h.same; heap = h'.heap; stack = h'.stack; content = h'.content },
    )
