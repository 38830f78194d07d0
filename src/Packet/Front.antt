-- ===== src/Packet/Front.antt =====
-- `reserve_heap` at the front of a buffer that holds bytes already, as `write_packet_into` calls it.
use alkahest.Prelude.{
  ℕ, ◌+◌, ◌-◌, ◌≡◌, refl, sym, ap, subst, ◌∙◌, ◌++◌, [], true, false, length, arith, ◌⊎◌, inl, inr,
  length-append, append_assoc, le→leb, le→ltb_false, drop-append, drop, ltb,
}
use alkahest.Prelude.Words.{Bytes}
use alkahest.Outcome.{ok}
use alkahest.Sizes.{Sizes, total}
use alkahest.Buffer.{
  Buffer, dry_buffer, checked_fixed_buffer, slice_buffer, maybe_fixed_buffer, vec_buffer,
  reserve_heap, write_back, overwrite, slice_to, check_exhausted, reserve,
}
use alkahest.Buffer.Holds.{
  Frame, frame, checked_frame, slice_frame, maybe_frame, Laid, Content, Holds, Post, Room,
}
use alkahest.Buffer.Slices.{slice_to_lem}
use alkahest.Buffer.Laws.{Laid-length}

-- The front of the heap, given out again: it is replaced by the bytes that are written back.
abbrev pub Front : ℕ → Sizes → Bytes → Frame → Buffer × Bytes → Type 0
Front n z X k (b, region) =
    ((region ≡ []) × ((M : Bytes) → length M ≡ n → Holds k b z (M ++ X) []))
    ⊎ ((length region ≡ n) × ((M : Bytes) → length M ≡ n → Holds k (write_back b M) z (M ++ X) []))

module _ (n : ℕ) (z : Sizes) (R X : Bytes) (en : length R ≡ n) (eh : z.heap ≡ length (R ++ X))
    (es : z.stack ≡ 0) where
  new_heap : (M : Bytes) → length M ≡ n → z.heap ≡ length (M ++ X)
  new_heap M hm = omega (arith, length-append M X, length-append R X)

  -- What the slice holds behind the region is kept.
  overwritten :
      (buf : Bytes) (l : Laid buf (R ++ X) []) (M : Bytes)
      → length M ≡ n
      → overwrite M buf ≡ (M ++ X) ++ (l.0 ++ [])
  overwritten buf (G, e) M hm =
      ap (λ t. M ++ drop (length M) t) (e ∙ append_assoc R X (G ++ []))
      ∙ ap (λ t. M ++ t) (drop-append (length M) R (X ++ (G ++ [])) (hm ∙ sym en))
      ∙ sym (append_assoc M X (G ++ []))

  overwritten_length :
      (buf : Bytes) (l : Laid buf (R ++ X) []) (M : Bytes)
      → length M ≡ n
      → length (overwrite M buf) ≡ length buf
  overwritten_length buf l M hm =
      ap length (overwritten buf l M hm)
      ∙ omega (
        arith,
        ap length l.1,
        length-append (M ++ X) (l.0 ++ []),
        length-append M X,
        length-append (R ++ X) (l.0 ++ []),
        length-append R X,
      )

  -- The slice that is given out is the front.
  region_lem : (buf : Bytes) (l : Laid buf (R ++ X) []) → slice_to (0 + n) buf ≡ ok R
  region_lem buf (G, e) =
      slice_to_lem (0 + n) buf R (X ++ (G ++ [])) (e ∙ append_assoc R X (G ++ [])) (omega arith)

  room_left : (buf : Bytes) (l : Laid buf (R ++ X) []) → ltb (length buf - 0 - 0) n ≡ false
  room_left buf l =
      le→ltb_false (length buf - 0 - 0) n
        (omega (arith, Laid-length buf (R ++ X) [] l, length-append R X))

  replaced :
      (mk : Bytes → Buffer) (buf : Bytes) (l : Laid buf (R ++ X) [])
      → ((r : Bytes) → write_back (mk buf) r ≡ mk (overwrite r buf))
      → ((r : Bytes) → length r ≡ length buf → frame (mk r) ≡ frame (mk buf))
      → ((r H : Bytes) → Laid r H [] → Content (mk r) H [])
      → Front n z X (frame (mk buf)) (mk buf, R)
  replaced mk buf l wb fr ct = inr (
    en,
    λ M hm.
        subst (λ b'. Holds (frame (mk buf)) b' z (M ++ X) []) (sym (wb M))
          (record {
            same = fr (overwrite M buf) (overwritten_length buf l M hm);
            heap = new_heap M hm;
            stack = es;
            content = ct (overwrite M buf) (M ++ X) (l.0, overwritten buf l M hm);
          }),
  )

  pub reserve_again :
      (b : Buffer)
      → Content b (R ++ X) []
      → Room (frame b) (total z)
      → Post (frame b) (total z) (Front n z X (frame b)) (reserve_heap b 0 0 n)
  unfolding reserve_heap check_exhausted write_back reserve
  reserve_again dry_buffer c room = (
    tt,
    inl (refl, λ M hm. record { same = refl; heap = new_heap M hm; stack = es; content = tt }),
  )
  reserve_again (checked_fixed_buffer buf) c room =
      rw (le→leb (0 + 0) (length buf) (omega arith), room_left buf c, region_lem buf c)
        (
          omega (arith, Laid-length buf (R ++ X) [] c),
          replaced checked_fixed_buffer buf c (λ r. refl) (λ r e. ap checked_frame e) (λ r H l. l),
        )
  reserve_again (slice_buffer buf) c room =
      rw (le→leb (0 + 0) (length buf) (omega arith), region_lem buf c)
        (
          room.within,
          replaced slice_buffer buf c (λ r. refl) (λ r e. ap slice_frame e) (λ r H l. l),
        )
  reserve_again (maybe_fixed_buffer buf true) c room = (
    tt,
    inl (
      refl,
      λ M hm. record {
        same = refl;
        heap = new_heap M hm;
        stack = es;
        content = omega (arith, c, length-append M X, length-append R X);
      },
    ),
  )
  reserve_again (maybe_fixed_buffer buf false) c room =
      rw (le→leb (0 + 0) (length buf) (omega arith), room_left buf c, region_lem buf c)
        (
          tt,
          replaced (λ t. maybe_fixed_buffer t false) buf c (λ r. refl) (λ r e. ap maybe_frame e)
              (λ r H l. l),
        )
  reserve_again (vec_buffer buf) c room =
      rw (le→leb (0 + 0) (length buf) (omega arith), room_left buf c, region_lem buf c)
        (tt, replaced vec_buffer buf c (λ r. refl) (λ r e. refl) (λ r H l. l))
