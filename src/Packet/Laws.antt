-- ===== src/Packet/Laws.antt =====
-- What a packet holds, and `write_packet_into`.
use alkahest.Prelude.{
  ℕ, ◌+◌, ◌<◌, ◌≡◌, refl, sym, ap, subst, ◌∙◌, ◌++◌, [], ◌∷◌, some, length, arith, inl, inr,
  length-append, append-nil, replicate, length-replicate,
}
use alkahest.Prelude.Words.{Bytes}
use alkahest.Outcome.{ok}
use alkahest.Formula.{Formula, usize_limit, reference_size, reference_size_pos}
use alkahest.Sizes.{Sizes, sizes_zero, with_heap}
use alkahest.Buffer.{Buffer, slice_buffer, reserve_heap, write_back, slice_bytes}
use alkahest.Buffer.Holds.{
  Frame, frame, slice_frame, Content, Holds, Ensures, Ensures-bind, Fits-mono, Holds-eq,
}
use alkahest.Buffer.Laws.{at_frame}
use alkahest.Buffer.Reserve.{reserve_heap-Ensures, Reserved}
use alkahest.Serialize.{write_ref}
use alkahest.Serialize.Wire.{WireFormat}
use alkahest.Serialize.Wire.Reference.{write_ref-Ensures, Post-ok, full_slice}
use alkahest.Serialize.Wire.Address.{
  write_reference-Ensures, reference_bytes, length-reference_bytes,
}
use alkahest.Deserialize.References.{length-reference}
use alkahest.Codec.{Codec, IsCodec}
use alkahest.Codec.RoundTrip.{whole_len}
use alkahest.Packet.{fill_reserved, write_packet_into}
use alkahest.Packet.Front.{Front, reserve_again}

-- The bytes of a packet: the reference, and the image of the value behind it.
abbrev pub PacketBytes : {T : Type 0} → Formula → WireFormat T → T → Bytes → Type 0
PacketBytes f w v bytes =
    (hb : Bytes) × (sb : Bytes) × w.Wire v (reference_size f) hb sb
    × (bytes ≡ reference_bytes f.exact_size (length sb) (length bytes) ++ (hb ++ sb))
    × (length bytes < usize_limit)

-- The length of the packet of a value.
abbrev pub packet_len : {T : Type 0} → Formula → WireFormat T → T → ℕ
packet_len f w v = reference_size f + whole_len w v

-- The buffer holds a packet, of the length that is returned.
abbrev pub Packed : {T : Type 0} → Formula → WireFormat T → T → Frame → ℕ × Buffer → Type 0
Packed f w v k (size, b) =
    (bytes : Bytes) × (z : Sizes) × PacketBytes f w v bytes
    × (size ≡ length bytes)
    × Holds k b z bytes []

module _ {T : Type 0} (c : Codec T) (w : WireFormat T) (laws : IsCodec c w) (v : T)
    (val : w.IsValue v) where
  fill_reserved_lem :
      (size address : ℕ) (b : Buffer) (region : Bytes) (z : Sizes) (X : Bytes) (k : Frame)
      → size < usize_limit
      → address < usize_limit
      → reference_size c.formula < usize_limit
      → size ≡ w.stack_len v
      → Front (reference_size c.formula) z X k (b, region)
      → (b' : Buffer) × (fill_reserved c.formula size address b region ≡ ok b')
        × Holds k b' z (reference_bytes c.formula.exact_size size address ++ X) []
  unfolding fill_reserved
  fill_reserved_lem size address b [] z X k hs ha hn es front = elim front [
    | inl (nil, keep) ↦ (
      b,
      refl,
      keep (reference_bytes c.formula.exact_size size address)
          (sym (length-reference c.formula size address)),
    )
    | inr (len, put) ↦ absurd (omega (arith, len, reference_size_pos c.formula))
  ]
  fill_reserved_lem size address b (x ∷ xs) z X k hs ha hn es front = elim front [
    | inl (nil, keep) ↦ absurd (cc nil)
    | inr (len, put) ↦
        let region : Bytes = x ∷ xs in
        let n : ℕ = reference_size c.formula in
        let h : Holds (slice_frame (length region)) (slice_buffer region) sizes_zero [] [] =
          record {
            same = refl;
            heap = refl;
            stack = refl;
            content = (region, sym (append-nil region));
          } in
        let (b', r, h') =
          Post-ok (slice_frame (length region)) _ tt
            (record { within = omega arith; small = omega arith })
            (write_reference-Ensures c.formula size address h
              (λ e. laws.sized.exact v val e ∙ ap some (sym es)) n
              (length-reference c.formula size address
                ∙ length-reference_bytes c.formula.exact_size size address)
              hs ha) in
        let bytes : slice_bytes b' ≡ reference_bytes c.formula.exact_size size address =
          full_slice b' (length region) [] (reference_bytes c.formula.exact_size size address ++ [])
            h'
            (omega (
              arith,
              length-reference c.formula size address,
              length-append (reference_bytes c.formula.exact_size size address) [],
            ))
          ∙ append-nil (reference_bytes c.formula.exact_size size address) in
        (
          write_back b (slice_bytes b'),
          rw r,
          subst
              (λ t.
                Holds k (write_back b t) z (reference_bytes c.formula.exact_size size address ++ X)
                  [])
              (sym bytes)
              (put (reference_bytes c.formula.exact_size size address)
                (sym (length-reference c.formula size address))),
        )
  ]

  -- `write_packet_into` writes a packet into an empty buffer.
  pub write_packet_into-Ensures :
      (b : Buffer)
      → Content b [] []
      → Ensures
          (frame b)
          (packet_len c.formula w v)
          (Packed c.formula w v (frame b))
          (write_packet_into c.formula c.ser v b)
  unfolding write_packet_into
  write_packet_into-Ensures b content =
      let n : ℕ = reference_size c.formula in
      let k : Frame = frame b in
      let h : Holds k b sizes_zero [] [] = record {
        same = refl;
        heap = refl;
        stack = refl;
        content = content;
      } in
      Ensures-bind k (reserve_heap b 0 0 n) _ (omega arith) (reserve_heap-Ensures n h)
        (λ (b1, region) reserved fits room.
          let (R, hr, h1) = garbage k b1 region reserved in
          (Ensures-bind k (write_ref c.formula c.ser v (with_heap n) b1) _ (omega arith)
              (write_ref-Ensures c.formula c.ser w laws.writer laws.sized v k b1 (with_heap n) R []
                val h1)
              (λ (size, z, b2) (hb, sb, q, esz, eh, es, h2) fits2 room2.
                let (lh, ls) = w.lengths v (length R) hb sb q in
                let bytes : Bytes = reference_bytes c.formula.exact_size size z.heap in
                let lb : n ≡ length bytes = length-reference c.formula size z.heap in
                let all : z.heap ≡ length (bytes ++ (hb ++ sb)) =
                  omega (arith, length-append bytes (hb ++ sb), length-append hb sb) in
                (Ensures-bind k (reserve_heap b2 0 0 n) _ (omega arith)
                    (at_frame (λ k'. Front n z (hb ++ sb) k') h2.same
                      (reserve_again n z R (hb ++ sb) hr h2.heap es b2 h2.content))
                    (λ (b3, region3) front fits3 room3.
                      let (b4, r4, h4) =
                        fill_reserved_lem size z.heap b3 region3 z (hb ++ sb) k
                          (omega (arith, room3.small)) (omega (arith, room3.small))
                          (omega (arith, room3.small)) (esz ∙ ls) front in
                      rw r4 (
                        Fits-mono k (omega arith) fits3,
                        (
                          bytes ++ (hb ++ sb),
                          z,
                          (
                            hb,
                            sb,
                            subst (λ m. w.Wire v m hb sb) hr q,
                            ap (λ m. reference_bytes c.formula.exact_size m z.heap ++ (hb ++ sb))
                                  esz
                                ∙ ap
                                    (λ m.
                                      reference_bytes c.formula.exact_size (length sb) m
                                      ++ (hb ++ sb))
                                    all,
                            omega (arith, room3.small),
                          ),
                          all,
                          h4,
                        ),
                      ))).post
                  room2)).post
            room)
    where
      garbage :
          (k : Frame) (b1 : Buffer) (region : Bytes)
          → Reserved (reference_size c.formula) sizes_zero [] [] k (b1, region)
          → (R : Bytes) × (length R ≡ reference_size c.formula)
            × Holds k b1 (with_heap (reference_size c.formula)) R []
      garbage k b1 region reserved = elim reserved [
        | inl (nil, skip) ↦ (
          replicate (reference_size c.formula) 0,
          length-replicate (reference_size c.formula) 0,
          Holds-eq
              (skip (replicate (reference_size c.formula) 0)
                (length-replicate (reference_size c.formula) 0))
              (omega arith) refl refl refl,
        )
        | inr (R, filled, e, lr, back, kept) ↦ (R, lr, Holds-eq kept (omega arith) refl refl refl)
      ]
