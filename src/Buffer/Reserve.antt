-- ===== src/Buffer/Reserve.antt =====
-- `reserve_heap`, with what is written to the slice that it returns.
use alkahest.Prelude.{
  ℕ, ◌+◌, ◌-◌, ◌≤◌, ◌≡◌, ◌≢◌, refl, sym, ap, subst, ◌∙◌, ◌++◌, [], ◌∷◌, ◌⊎◌, inl, inr, true, false,
  length, drop, arith, append_assoc, length-append, le→leb, ltb-cases, split_first, drop-append,
  nil_of_length,
}
use alkahest.Prelude.Words.{Bytes}
use alkahest.Sizes.{Sizes, add_heap, total}
use alkahest.Buffer.{
  Buffer, dry_buffer, checked_fixed_buffer, slice_buffer, maybe_fixed_buffer, vec_buffer,
  reserve_heap, write_back, check_exhausted, overwrite,
}
use alkahest.Buffer.Holds.{
  Frame, frame, checked_frame, slice_frame, maybe_frame, Laid, Content, Holds, Ensures, Post, Room,
}
use alkahest.Buffer.Slices.{slice_to_lem}
use alkahest.Buffer.Laws.{Laid-length, reserve_lem, at_frame}

-- Either no slice is given, and the bytes count as written; or a slice that ends in `n` bytes behind
-- the heap is, and whatever is put there and written back becomes the end of the heap.
abbrev pub Reserved : ℕ → Sizes → Bytes → Bytes → Frame → Buffer × Bytes → Type 0
Reserved n z H S k (b, region) =
    ((region ≡ []) × ((M : Bytes) → length M ≡ n → Holds k b (add_heap z n) (H ++ M) S))
    ⊎ ((R : Bytes) × (region ≢ [])
        × (region ≡ H ++ R)
        × (length R ≡ n)
        × ((M : Bytes) → length M ≡ n → Holds k (write_back b (H ++ M)) (add_heap z n) (H ++ M) S)
        × Holds k b (add_heap z n) (H ++ R) S)

nil_or_not : (l : Bytes) → (l ≡ []) ⊎ (l ≢ [])
nil_or_not [] = inl refl
nil_or_not (x ∷ xs) = inr (λ e. cc)

module _ (z : Sizes) (H S : Bytes) (n : ℕ) (eh : z.heap ≡ length H) (es : z.stack ≡ length S) where
  grown_heap : (M : Bytes) → length M ≡ n → z.heap + n ≡ length (H ++ M)
  grown_heap M e = omega (arith, length-append H M)

  -- `n` bytes of the gap, and the rest of the slice.
  Laid-reserve :
      (buf : Bytes) (l : Laid buf H S)
      → n ≤ length l.0
      → (R : Bytes) × (G : Bytes) × (length R ≡ n) × (buf ≡ (H ++ R) ++ (G ++ S))
  Laid-reserve buf (G, e) h =
      let (R, G', eg, hr) = split_first n G h in
      (
        R,
        G',
        hr,
        e
            ∙ ap (λ t. H ++ (t ++ S)) eg
            ∙ ap (λ t. H ++ t) (append_assoc R G' S)
            ∙ sym (append_assoc H R (G' ++ S)),
      )

  -- For the buffers that are a slice behind a constructor.
  Reserved-slice :
      {k : Frame} (mk : Bytes → Buffer) (buf R G : Bytes)
      → length R ≡ n
      → buf ≡ (H ++ R) ++ (G ++ S)
      → ((r : Bytes) → write_back (mk buf) r ≡ mk (overwrite r buf))
      → ((M buf' : Bytes)
          → length M ≡ n
          → length buf' ≡ length buf
          → Laid buf' (H ++ M) S
          → Holds k (mk buf') (add_heap z n) (H ++ M) S)
      → Reserved n z H S k (mk buf, H ++ R)
  Reserved-slice {k} mk buf R G hr e wb holds = elim (nil_or_not (H ++ R)) [
    | inl nil ↦ inl (
      nil,
      λ M hm.
          holds M buf hm refl
            (G, e ∙ ap (λ t. t ++ (G ++ S)) (nil ∙ sym (both_nil M hm (ap length nil)))),
    )
    | inr filled ↦ inr (
      R,
      filled,
      refl,
      hr,
      λ M hm.
          subst (λ b'. Holds k b' (add_heap z n) (H ++ M) S) (sym (wb (H ++ M)))
            (holds M (overwrite (H ++ M) buf) hm (same_length M hm) (G, back M hm)),
      holds R buf hr refl (G, e),
    )
  ]
    where
      both_nil : (M : Bytes) → length M ≡ n → length (H ++ R) ≡ 0 → H ++ M ≡ []
      both_nil M hm h = nil_of_length (H ++ M) (omega (arith, length-append H M, length-append H R))

      back : (M : Bytes) → length M ≡ n → overwrite (H ++ M) buf ≡ (H ++ M) ++ (G ++ S)
      back M hm =
          ap (λ t. (H ++ M) ++ t)
            (ap (drop (length (H ++ M))) e
              ∙ drop-append (length (H ++ M)) (H ++ R) (G ++ S)
                  (omega (arith, length-append H M, length-append H R)))

      same_length : (M : Bytes) → length M ≡ n → length (overwrite (H ++ M) buf) ≡ length buf
      same_length M hm =
          ap length (back M hm)
          ∙ omega (
            arith,
            ap length e,
            length-append (H ++ M) (G ++ S),
            length-append (H ++ R) (G ++ S),
            length-append H M,
            length-append H R,
          )

  reserve_heap-frame :
      (b : Buffer)
      → Content b H S
      → Room (frame b) (total z + n)
      → Post (frame b) (total z + n) (Reserved n z H S (frame b)) (reserve_heap b z.heap z.stack n)
  unfolding reserve_heap check_exhausted write_back
  reserve_heap-frame dry_buffer c room = (
    tt,
    inl (refl, λ M hm. record { same = refl; heap = grown_heap M hm; stack = es; content = tt }),
  )
  reserve_heap-frame (checked_fixed_buffer buf) c room =
      let len = Laid-length buf H S c in
      rw (le→leb (z.heap + z.stack) (length buf) (omega arith))
        (elim (ltb-cases (length buf - z.heap - z.stack) n) [
          | inl (t, lt) ↦ rw t (omega arith)
          | inr (t, le) ↦
              let (R, G, hr, e) = Laid-reserve buf c (omega arith) in
              rw (t, slice_to_lem (z.heap + n) buf (H ++ R) (G ++ S) e (grown_heap R hr))
                (
                  omega arith,
                  Reserved-slice checked_fixed_buffer buf R G hr e (λ r. refl)
                      (λ M buf' hm hl l. record {
                        same = ap checked_frame hl;
                        heap = grown_heap M hm;
                        stack = es;
                        content = l;
                      }),
                )
        ])
  reserve_heap-frame (slice_buffer buf) c room =
      let len = Laid-length buf H S c in
      let fits : n ≤ length c.0 = omega (arith, room.within) in
      let (R, G, hr, e) = Laid-reserve buf c fits in
      rw
        (
          le→leb (z.heap + z.stack) (length buf) (omega arith),
          slice_to_lem (z.heap + n) buf (H ++ R) (G ++ S) e (grown_heap R hr),
        )
        (
          omega (arith, room.within),
          Reserved-slice slice_buffer buf R G hr e (λ r. refl)
              (λ M buf' hm hl l. record {
                same = ap slice_frame hl;
                heap = grown_heap M hm;
                stack = es;
                content = l;
              }),
        )
  reserve_heap-frame (maybe_fixed_buffer buf true) c room = (
    tt,
    inl (
      refl,
      λ M hm. record {
        same = refl;
        heap = grown_heap M hm;
        stack = es;
        content = omega (arith, length-append H M);
      },
    ),
  )
  reserve_heap-frame (maybe_fixed_buffer buf false) c room =
      let len = Laid-length buf H S c in
      rw (le→leb (z.heap + z.stack) (length buf) (omega arith))
        (elim (ltb-cases (length buf - z.heap - z.stack) n) [
          | inl (t, lt) ↦ rw t (
            tt,
            inl (
              refl,
              λ M hm. record {
                same = refl;
                heap = grown_heap M hm;
                stack = es;
                content = omega (arith, length-append H M);
              },
            ),
          )
          | inr (t, le) ↦
              let (R, G, hr, e) = Laid-reserve buf c (omega arith) in
              rw (t, slice_to_lem (z.heap + n) buf (H ++ R) (G ++ S) e (grown_heap R hr))
                (
                  tt,
                  Reserved-slice (λ t. maybe_fixed_buffer t false) buf R G hr e (λ r. refl)
                      (λ M buf' hm hl l. record {
                        same = ap maybe_frame hl;
                        heap = grown_heap M hm;
                        stack = es;
                        content = l;
                      }),
                )
        ])
  reserve_heap-frame (vec_buffer buf) c room =
      let len = Laid-length buf H S c in
      let (grown, rg, lg, fit) = reserve_lem buf H S z.heap z.stack n c eh es in
      let (R, G, hr, e) = Laid-reserve grown lg fit in
      rw
        (
          le→leb (z.heap + z.stack) (length buf) (omega arith),
          rg,
          slice_to_lem (z.heap + n) grown (H ++ R) (G ++ S) e (grown_heap R hr),
        )
        (
          tt,
          Reserved-slice vec_buffer grown R G hr e (λ r. refl)
              (λ M buf' hm hl l. record {
                same = refl;
                heap = grown_heap M hm;
                stack = es;
                content = l;
              }),
        )

pub reserve_heap-Ensures :
    {k : Frame} {b : Buffer} {z : Sizes} {H S : Bytes} (n : ℕ)
    → Holds k b z H S
    → Ensures k (total z + n) (Reserved n z H S k) (reserve_heap b z.heap z.stack n)
reserve_heap-Ensures {b} {z} {H} {S} n h =
    at_frame (Reserved n z H S) h.same (reserve_heap-frame z H S n h.heap h.stack b h.content)
