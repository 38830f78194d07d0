-- ===== src/Buffer/Laws.antt =====
-- `write_stack` and `pad_stack`, for all five implementations at once.
use alkahest.Prelude.{
  ℕ, ◌+◌, ◌-◌, ◌≤◌, ◌≡◌, refl, ap, subst, ◌∙◌, ◌++◌, inl, inr, true, false, length, arith,
  append_assoc, length-append, le→leb, ltb-cases, replicate, length-replicate, split_last,
}
use alkahest.Prelude.Words.{Bytes}
use alkahest.Outcome.{ok}
use alkahest.Sizes.{Sizes, add_stack, total}
use alkahest.Buffer.{
  Buffer, dry_buffer, checked_fixed_buffer, slice_buffer, maybe_fixed_buffer, vec_buffer,
  write_stack, pad_stack, check_exhausted, reserve, Write,
}
use alkahest.Buffer.Holds.{
  Frame, frame, checked_frame, slice_frame, maybe_frame, Laid, Content, Holds, Ensures, Post, Room,
}
use alkahest.Buffer.Slices.{write_before_stack_lem, do_reserve_lem}

pub Laid-length :
    (buf H S : Bytes) (l : Laid buf H S) → length buf ≡ length H + (length l.0 + length S)
Laid-length buf H S (G, e) =
    ap length e ∙ omega (arith, length-append H (G ++ S), length-append G S)

-- A vector has room for what is to be written once it has been reserved.
pub reserve_lem :
    (buf H S : Bytes) (heap stack n : ℕ)
    → Laid buf H S
    → heap ≡ length H
    → stack ≡ length S
    → (buf' : Bytes) × (reserve buf heap stack n ≡ ok buf') × (l : Laid buf' H S) × (n ≤ length l.0)
unfolding reserve
reserve_lem buf H S heap stack n (G, e) hh hs =
    let len = Laid-length buf H S (G, e) in
    elim (ltb-cases (length buf - heap - stack) n) [
      | inl (t, lt) ↦
          let (G', r, lg) = do_reserve_lem buf H G S heap stack n e hh hs (omega arith) in
          (H ++ (G' ++ S), rw t r, (G', refl), omega arith)
      | inr (t, le) ↦ (buf, rw t, (G, e), omega arith)
    ]

-- A law that is proved at the frame of the buffer, at the frame that the caller knows.
pub at_frame :
    {A : Type 0} {k k' : Frame} {n : ℕ} {r : Write A} (P : Frame → A → Type 0)
    → k ≡ k'
    → (Room k n → Post k n (P k) r)
    → Ensures k' n (P k') r
at_frame {n} {r} P e h = subst (λ k'. Ensures k' n (P k') r) e (record { post = h })

module _ (z : Sizes) (H S : Bytes) (bytes : Bytes) (eh : z.heap ≡ length H)
    (es : z.stack ≡ length S) where
  pushed : z.stack + length bytes ≡ length (bytes ++ S)
  pushed = omega (arith, length-append bytes S)

  write_stack-frame :
      (b : Buffer)
      → Content b H S
      → Room (frame b) (total z + length bytes)
      → Post
          (frame b)
          (total z + length bytes)
          (λ b'. Holds (frame b) b' (add_stack z (length bytes)) H (bytes ++ S))
          (write_stack b z.heap z.stack bytes)
  unfolding write_stack check_exhausted
  write_stack-frame dry_buffer c room =
      (tt, record { same = refl; heap = eh; stack = pushed; content = tt })
  write_stack-frame (checked_fixed_buffer buf) c room =
      let len = Laid-length buf H S c in
      rw (le→leb (z.heap + z.stack) (length buf) (omega arith))
        (elim (ltb-cases (length buf - z.heap - z.stack) (length bytes)) [
          | inl (t, lt) ↦ rw t (omega arith)
          | inr (t, le) ↦
              let (buf', r, l, e) =
                write_before_stack_lem buf H c.0 S bytes z.stack c.1 es (omega arith) in
              rw (t, r)
                (
                  omega arith,
                  record { same = ap checked_frame e; heap = eh; stack = pushed; content = l },
                )
        ])
  write_stack-frame (slice_buffer buf) c room =
      let len = Laid-length buf H S c in
      rw (le→leb (z.heap + z.stack) (length buf) (omega arith)) (
        let fits : length bytes ≤ length c.0 = omega (arith, room.within) in
        let (buf', r, l, e) = write_before_stack_lem buf H c.0 S bytes z.stack c.1 es fits in
        rw r (
          omega (arith, room.within),
          record { same = ap slice_frame e; heap = eh; stack = pushed; content = l },
        ))
  write_stack-frame (maybe_fixed_buffer buf true) c room = (
    tt,
    record {
      same = refl;
      heap = eh;
      stack = pushed;
      content = omega (arith, length-append bytes S);
    },
  )
  write_stack-frame (maybe_fixed_buffer buf false) c room =
      let len = Laid-length buf H S c in
      rw (le→leb (z.heap + z.stack) (length buf) (omega arith))
        (elim (ltb-cases (length buf - z.heap - z.stack) (length bytes)) [
          | inl (t, lt) ↦ rw t (
            tt,
            record {
              same = refl;
              heap = eh;
              stack = pushed;
              content = omega (arith, length-append bytes S);
            },
          )
          | inr (t, le) ↦
              let (buf', r, l, e) =
                write_before_stack_lem buf H c.0 S bytes z.stack c.1 es (omega arith) in
              rw (t, r)
                (tt, record { same = ap maybe_frame e; heap = eh; stack = pushed; content = l })
        ])
  write_stack-frame (vec_buffer buf) c room =
      let len = Laid-length buf H S c in
      let (grown, rg, lg, fit) = reserve_lem buf H S z.heap z.stack (length bytes) c eh es in
      let (buf', r, l, e) = write_before_stack_lem grown H lg.0 S bytes z.stack lg.1 es fit in
      rw (le→leb (z.heap + z.stack) (length buf) (omega arith), rg, r)
        (tt, record { same = refl; heap = eh; stack = pushed; content = l })

pub write_stack-Ensures :
    {k : Frame} {b : Buffer} {z : Sizes} {H S : Bytes} (bytes : Bytes)
    → Holds k b z H S
    → Ensures k
        (total z + length bytes)
        (λ b'. Holds k b' (add_stack z (length bytes)) H (bytes ++ S))
        (write_stack b z.heap z.stack bytes)
write_stack-Ensures {b} {z} {H} {S} bytes h =
    at_frame (λ k' b'. Holds k' b' (add_stack z (length bytes)) H (bytes ++ S)) h.same
      (write_stack-frame z H S bytes h.heap h.stack b h.content)

-- Padding takes `n` bytes of the stack, and says nothing of what they hold.
abbrev pub Padded : ℕ → Sizes → Bytes → Bytes → Frame → Buffer → Type 0
Padded n z H S k b = (pad : Bytes) × (length pad ≡ n) × Holds k b (add_stack z n) H (pad ++ S)

module _ (z : Sizes) (H S : Bytes) (n : ℕ) (eh : z.heap ≡ length H) (es : z.stack ≡ length S) where
  padded : (pad : Bytes) → length pad ≡ n → z.stack + n ≡ length (pad ++ S)
  padded pad e = omega (arith, length-append pad S)

  Laid-pad :
      (buf : Bytes) (l : Laid buf H S)
      → n ≤ length l.0
      → (pad : Bytes) × (length pad ≡ n) × Laid buf H (pad ++ S)
  Laid-pad buf (G, e) h =
      let (G', pad, eg, hp) = split_last n G h in
      (pad, hp, (G', e ∙ ap (λ t. H ++ (t ++ S)) eg ∙ ap (λ t. H ++ t) (append_assoc G' pad S)))

  pad_stack-frame :
      (b : Buffer)
      → Content b H S
      → Room (frame b) (total z + n)
      → Post (frame b) (total z + n) (Padded n z H S (frame b)) (pad_stack b z.heap z.stack n)
  unfolding pad_stack check_exhausted
  pad_stack-frame dry_buffer c room = (
    tt,
    (
      replicate n 0,
      length-replicate n 0,
      record {
        same = refl;
        heap = eh;
        stack = padded (replicate n 0) (length-replicate n 0);
        content = tt;
      },
    ),
  )
  pad_stack-frame (checked_fixed_buffer buf) c room =
      let len = Laid-length buf H S c in
      rw (le→leb (z.heap + z.stack) (length buf) (omega arith))
        (elim (ltb-cases (length buf - z.heap - z.stack) n) [
          | inl (t, lt) ↦ rw t (omega arith)
          | inr (t, le) ↦
              let (pad, hp, l) = Laid-pad buf c (omega arith) in
              rw t (
                omega arith,
                (pad, hp, record { same = refl; heap = eh; stack = padded pad hp; content = l }),
              )
        ])
  pad_stack-frame (slice_buffer buf) c room =
      let len = Laid-length buf H S c in
      let fits : n ≤ length c.0 = omega (arith, room.within) in
      let (pad, hp, l) = Laid-pad buf c fits in
      rw
        (
          le→leb (z.heap + z.stack) (length buf) (omega arith),
          le→leb n (length buf - z.heap - z.stack) (omega arith),
        )
        (
          omega (arith, room.within),
          (pad, hp, record { same = refl; heap = eh; stack = padded pad hp; content = l }),
        )
  pad_stack-frame (maybe_fixed_buffer buf true) c room = (
    tt,
    (
      replicate n 0,
      length-replicate n 0,
      record {
        same = refl;
        heap = eh;
        stack = padded (replicate n 0) (length-replicate n 0);
        content = omega (arith, length-append (replicate n 0) S);
      },
    ),
  )
  pad_stack-frame (maybe_fixed_buffer buf false) c room =
      let len = Laid-length buf H S c in
      rw (le→leb (z.heap + z.stack) (length buf) (omega arith))
        (elim (ltb-cases (length buf - z.heap - z.stack) n) [
          | inl (t, lt) ↦ rw t (
            tt,
            (
              replicate n 0,
              length-replicate n 0,
              record {
                same = refl;
                heap = eh;
                stack = padded (replicate n 0) (length-replicate n 0);
                content = omega (arith, padded (replicate n 0) (length-replicate n 0));
              },
            ),
          )
          | inr (t, le) ↦
              let (pad, hp, l) = Laid-pad buf c (omega arith) in
              rw t (
                tt,
                (pad, hp, record { same = refl; heap = eh; stack = padded pad hp; content = l }),
              )
        ])
  pad_stack-frame (vec_buffer buf) c room =
      let len = Laid-length buf H S c in
      let (grown, rg, lg, fit) = reserve_lem buf H S z.heap z.stack n c eh es in
      let (pad, hp, l) = Laid-pad grown lg fit in
      rw (le→leb (z.heap + z.stack) (length buf) (omega arith), rg)
        (tt, (pad, hp, record { same = refl; heap = eh; stack = padded pad hp; content = l }))

pub pad_stack-Ensures :
    {k : Frame} {b : Buffer} {z : Sizes} {H S : Bytes} (n : ℕ)
    → Holds k b z H S
    → Ensures k (total z + n) (Padded n z H S k) (pad_stack b z.heap z.stack n)
pad_stack-Ensures {b} {z} {H} {S} n h =
    at_frame (Padded n z H S) h.same (pad_stack-frame z H S n h.heap h.stack b h.content)

-- For a buffer that holds a heap and a stack and has room: `write_stack` never panics; it fails
-- only if the buffer is a checked one that is too short; else the bytes stand before the stack,
-- and the heap and the stack are kept.
pub write_stack-Post :
    {k : Frame} {b : Buffer} {z : Sizes} (H S : Bytes) (bytes : Bytes)
    → Holds k b z H S
    → Room k (total z + length bytes)
    → Post k
        (total z + length bytes)
        (λ b'. Holds k b' (add_stack z (length bytes)) H (bytes ++ S))
        (write_stack b z.heap z.stack bytes)
write_stack-Post H S bytes h room = (write_stack-Ensures bytes h).post room

-- For a buffer that holds a heap and a stack and has room: `pad_stack` never panics; it fails
-- only if the buffer is a checked one that is too short; else the stack is longer by the padding,
-- of whatever bytes, and the heap and the stack are kept.
pub pad_stack-Post :
    {k : Frame} {b : Buffer} {z : Sizes} (H S : Bytes) (n : ℕ)
    → Holds k b z H S
    → Room k (total z + n)
    → Post k (total z + n) (Padded n z H S k) (pad_stack b z.heap z.stack n)
pad_stack-Post H S n h room = (pad_stack-Ensures n h).post room
