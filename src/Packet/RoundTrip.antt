-- ===== src/Packet/RoundTrip.antt =====
-- The functions of src/packet.rs that write packets, and those that read them.
use alkahest.Prelude.{
  ℕ, zero, suc, ◌+◌, ◌-◌, ◌≤◌, ◌<◌, ◌≡◌, ◌≢◌, refl, sym, ap, subst, ◌∙◌, ◌++◌, [], Bool, true,
  false, Option, none, some, length, arith, ◌⊎◌, inl, inr, length-append, append_assoc, append-nil,
  le→ltb_false, take-append,
}
use alkahest.Prelude.Words.{Bytes, to_le_bytes, length-to_le_bytes, from-to_le_bytes}
use alkahest.Outcome.{ok, err, ◌>>=◌}
use alkahest.Formula.{Formula, size_stack, usize_limit, reference_size}
use alkahest.Buffer.{
  Buffer, Write, buffer_exhausted, dry_buffer, checked_fixed_buffer, slice_buffer, vec_buffer,
  slice_bytes,
}
use alkahest.Buffer.Holds.{Frame, dry_frame, checked_frame, slice_frame, vec_frame}
use alkahest.Serialize.Wire.{WireFormat}
use alkahest.Serialize.Wire.Reference.{Post-ok}
use alkahest.Serialize.Wire.Address.{reference_bytes}
use alkahest.Deserialize.{read_reference}
use alkahest.Deserialize.Reads.{new_unchecked_lem}
use alkahest.Deserialize.References.{length-reference, read_reference_lem}
use alkahest.Codec.{Codec, IsCodec}
use alkahest.Codec.RoundTrip.{stored}
use alkahest.Codec.Capacity.{checked-Post, Solid, Solid-HoldsBytes}
use alkahest.Packet.{
  write_packet_into, write_packet, write_packet_unchecked, write_packet_to_vec, packet_size,
  read_packet, read_packet_size, read_packet_address,
}
use alkahest.Packet.Laws.{PacketBytes, packet_len, Packed, write_packet_into-Ensures}

PacketBytes-length :
    {T : Type 0} (f : Formula) (w : WireFormat T) (v : T) (bytes : Bytes)
    → PacketBytes f w v bytes
    → length bytes ≡ packet_len f w v
PacketBytes-length f w v bytes (hb, sb, q, e, lt) =
    let ref = reference_bytes f.exact_size (length sb) (length bytes) in
    let (lh, ls) = w.lengths v (reference_size f) hb sb q in
    omega (
      arith,
      ap length e,
      length-append ref (hb ++ sb),
      length-append hb sb,
      length-reference f (length sb) (length bytes),
    )

-- A reference begins with the address.
address_first :
    (x : Bool) (size address : ℕ)
    → (Y : Bytes) × (reference_bytes x size address ≡ to_le_bytes size_stack address ++ Y)
address_first true size address = ([], sym (append-nil (to_le_bytes size_stack address)))
address_first false size address = (to_le_bytes size_stack size, refl)

read_packet_address_lem :
    (address : ℕ) (rest : Bytes)
    → address < usize_limit
    → read_packet_address (to_le_bytes size_stack address ++ rest) ≡ some address
unfolding read_packet_address usize_limit
read_packet_address_lem address rest h =
    let word : Bytes = to_le_bytes size_stack address in
    let lw = length-to_le_bytes size_stack address in
    rw (
      le→ltb_false (length (word ++ rest)) size_stack (omega (arith, length-append word rest)),
      take-append size_stack word rest (sym lw),
      from-to_le_bytes size_stack address h,
    )

by_max :
    (m : Option ℕ) (input : Bytes)
    → m ≢ some 0
    → read_packet_size m input ≡ read_packet_address input
unfolding read_packet_size
by_max none input h = refl
by_max (some zero) input h = absurd (h refl)
by_max (some (suc m)) input h = refl

module _ {T : Type 0} (c : Codec T) (w : WireFormat T) (laws : IsCodec c w) (v : T)
    (val : w.IsValue v) where
  -- For a codec that keeps the contract `IsCodec` and a value of its type: `read_packet` on the
  -- bytes of a packet of the value, whatever follows them, returns the value and the length of
  -- the packet.
  pub read_packet_lem :
      (bytes rest : Bytes)
      → PacketBytes c.formula w v bytes
      → read_packet c.formula c.de (bytes ++ rest) ≡ ok (v, length bytes)
  unfolding read_packet
  read_packet_lem bytes rest (hb, sb, q, e, lt) =
      let f = c.formula in
      let n : ℕ = reference_size f in
      let ref : Bytes = reference_bytes f.exact_size (length sb) (length bytes) in
      let lr : n ≡ length ref = length-reference f (length sb) (length bytes) in
      let lb : length bytes ≡ n + (length hb + length sb) =
        omega (arith, ap length e, length-append ref (hb ++ sb), length-append hb sb) in
      let split : bytes ≡ (ref ++ hb) ++ sb = e ∙ sym (append_assoc ref hb sb) in
      let exact : f.exact_size ≡ true → f.max_stack_size ≡ some (length sb) =
        λ x. laws.sized.exact v val x ∙ ap some (sym (w.lengths v n hb sb q).1) in
      let len : ℕ = length (bytes ++ rest) in
      let ll : len ≡ length bytes + length rest = length-append bytes rest in
      let value : c.de.deserialize (record { input = bytes; stack = length sb }) ≡ ok v =
        ap (λ t. c.de.deserialize (record { input = t; stack = length sb })) split
        ∙ ap (λ m. c.de.deserialize (record { input = (ref ++ hb) ++ sb; stack = m })) (omega arith)
        ∙ laws.reader.reads v ref hb [] sb (ref ++ hb) 0 val (subst (λ m. w.Wire v m hb sb) lr q)
            (ap (λ t. ref ++ t) (sym (append-nil hb))) (omega arith) (λ _. refl) in
      let header : bytes ++ rest ≡ ref ++ ((hb ++ sb) ++ rest) =
        ap (λ t. t ++ rest) e ∙ append_assoc ref (hb ++ sb) rest in
      rw (
        le→ltb_false len n (omega arith),
        ap (λ t. read_reference f t (len - n)) header
            ∙ read_reference_lem f (length sb) (length bytes) (omega arith) lt exact
                ((hb ++ sb) ++ rest) (len - n) (omega arith),
        le→ltb_false (length bytes) (length sb) (omega arith),
        le→ltb_false len (length bytes) (omega arith),
        take-append (length bytes) bytes rest refl,
        new_unchecked_lem (length sb) bytes (omega arith),
        value,
      )

  -- Where it has stack bytes, the front of the packet tells its length.
  pub read_packet_size_lem :
      (bytes rest : Bytes)
      → PacketBytes c.formula w v bytes
      → c.formula.max_stack_size ≢ some 0
      → read_packet_size c.formula.max_stack_size (bytes ++ rest) ≡ some (length bytes)
  read_packet_size_lem bytes rest (hb, sb, q, e, lt) h =
      let ref : Bytes = reference_bytes c.formula.exact_size (length sb) (length bytes) in
      let (Y, ey) = address_first c.formula.exact_size (length sb) (length bytes) in
      let front : bytes ++ rest
          ≡ to_le_bytes size_stack (length bytes) ++ (Y ++ ((hb ++ sb) ++ rest)) =
        ap (λ t. t ++ rest) e
        ∙ append_assoc ref (hb ++ sb) rest
        ∙ ap (λ t. t ++ ((hb ++ sb) ++ rest)) ey
        ∙ append_assoc (to_le_bytes size_stack (length bytes)) Y ((hb ++ sb) ++ rest) in
      by_max c.formula.max_stack_size (bytes ++ rest) h
      ∙ ap read_packet_address front
      ∙ read_packet_address_lem (length bytes) (Y ++ ((hb ++ sb) ++ rest)) lt

-- What a call that writes a packet returns: its length, and bytes that it is read back from.
abbrev pub Delivers : {T : Type 0} → Codec T → WireFormat T → T → ℕ × Bytes → Type 0
Delivers c w v (size, output) =
    (size ≡ packet_len c.formula w v)
    × (size ≤ length output)
    × (read_packet c.formula c.de output ≡ ok (v, size))

abbrev with_bytes : Write (ℕ × Buffer) → Write (ℕ × Bytes)
with_bytes r = r >>= λ (size, b). ok (size, slice_bytes b)

module _ {T : Type 0} (c : Codec T) (w : WireFormat T) (laws : IsCodec c w) (v : T)
    (val : w.IsValue v) where
  delivered :
      (k : Frame) (size : ℕ) (b : Buffer)
      → Solid k
      → Packed c.formula w v k (size, b)
      → Delivers c w v (size, slice_bytes b)
  delivered k size b solid (bytes, z, p, es, h) =
      let (rest, e) =
        stored b bytes (Solid-HoldsBytes b (subst Solid (sym h.same) solid)) h.content in
      (
        es ∙ PacketBytes-length c.formula w v bytes p,
        omega (arith, ap length e, length-append bytes rest),
        rw (e, es) (read_packet_lem c w laws v val bytes rest p),
      )

  announced :
      (k : Frame) (size : ℕ) (b : Buffer)
      → Solid k
      → c.formula.max_stack_size ≢ some 0
      → Packed c.formula w v k (size, b)
      → read_packet_size c.formula.max_stack_size (slice_bytes b) ≡ some size
  announced k size b solid nonzero (bytes, z, p, es, h) =
      let (rest, e) =
        stored b bytes (Solid-HoldsBytes b (subst Solid (sym h.same) solid)) h.content in
      rw (e, es) (read_packet_size_lem c w laws v val bytes rest p nonzero)

  module _ (small : packet_len c.formula w v < usize_limit) where
    -- For a codec that keeps the contract `IsCodec` and a value whose packet is shorter than
    -- a `FixedUsizeType` can count: either the packet fits the slice, `write_packet` returns
    -- its length, and `read_packet` reads the value and that length from the slice; or it
    -- does not fit, and `write_packet` returns `BufferExhausted`.
    pub write_packet-cases :
        (output : Bytes)
        → ((packet_len c.formula w v ≤ length output)
            × ((r : ℕ × Bytes) × (write_packet c.formula c.ser v output ≡ ok r) × Delivers c w v r))
          ⊎ ((length output < packet_len c.formula w v)
              × (write_packet c.formula c.ser v output ≡ err buffer_exhausted))
    unfolding write_packet
    write_packet-cases output =
        let b : Buffer = checked_fixed_buffer output in
        elim (checked-Post (length output) (packet_len c.formula w v)
          (write_packet_into c.formula c.ser v b) (record { within = tt; small = small })
          (write_packet_into-Ensures c w laws v val b (output, sym (append-nil output)))) [
            | inl (fits, ((size, b'), e, p)) ↦ inl (
              fits,
              (
                (size, slice_bytes b'),
                ap with_bytes e,
                delivered (checked_frame (length output)) size b' tt p,
              ),
            )
            | inr (short, e) ↦ inr (short, ap with_bytes e)
          ]

    -- For a codec that keeps the contract `IsCodec`, a formula whose maximum is not 0, and a
    -- value whose packet is shorter than a `FixedUsizeType` can count: on a slice that is
    -- long enough for the packet, `write_packet` succeeds, and `read_packet_size` of what it
    -- wrote is the length that it returned.
    pub read_packet_size-write_packet :
        (output : Bytes)
        → packet_len c.formula w v ≤ length output
        → c.formula.max_stack_size ≢ some 0
        → (r : ℕ × Bytes) × (write_packet c.formula c.ser v output ≡ ok r)
          × (read_packet_size c.formula.max_stack_size r.1 ≡ some r.0)
    unfolding write_packet
    read_packet_size-write_packet output h nonzero =
        let b : Buffer = checked_fixed_buffer output in
        elim (checked-Post (length output) (packet_len c.formula w v)
          (write_packet_into c.formula c.ser v b) (record { within = tt; small = small })
          (write_packet_into-Ensures c w laws v val b (output, sym (append-nil output)))) [
            | inl (fits, ((size, b'), e, p)) ↦ (
              (size, slice_bytes b'),
              ap with_bytes e,
              announced (checked_frame (length output)) size b' tt nonzero p,
            )
            | inr (short, e) ↦ absurd (omega arith)
          ]

    -- For a codec that keeps the contract `IsCodec` and a value whose packet is shorter than
    -- a `FixedUsizeType` can count: `write_packet_to_vec` succeeds into every vector, and
    -- `read_packet` reads the value and the length back.
    pub write_packet_to_vec-ok :
        (output : Bytes)
        → (r : ℕ × Bytes) × (write_packet_to_vec c.formula c.ser v output ≡ ok r) × Delivers c w v r
    unfolding write_packet_to_vec
    write_packet_to_vec-ok output =
        let b : Buffer = vec_buffer output in
        let ((size, b'), e, p) =
          Post-ok vec_frame (write_packet_into c.formula c.ser v b) tt
            (record { within = tt; small = small })
            (write_packet_into-Ensures c w laws v val b (output, sym (append-nil output))) in
        ((size, slice_bytes b'), ap with_bytes e, delivered vec_frame size b' tt p)

    -- For a codec that keeps the contract `IsCodec` and a value whose packet is shorter than
    -- a `FixedUsizeType` can count: `write_packet_unchecked` into a slice that is long enough
    -- does not panic, and `read_packet` reads the value and the length back.
    pub write_packet_unchecked-ok :
        (output : Bytes)
        → packet_len c.formula w v ≤ length output
        → (r : ℕ × Bytes) × (write_packet_unchecked c.formula c.ser v output ≡ ok r)
          × Delivers c w v r
    unfolding write_packet_unchecked
    write_packet_unchecked-ok output h =
        let b : Buffer = slice_buffer output in
        let ((size, b'), e, p) =
          Post-ok (slice_frame (length output)) (write_packet_into c.formula c.ser v b) tt
            (record { within = h; small = small })
            (write_packet_into-Ensures c w laws v val b (output, sym (append-nil output))) in
        (
          (size, slice_bytes b'),
          ap with_bytes e,
          delivered (slice_frame (length output)) size b' tt p,
        )

    -- For a codec that keeps the contract `IsCodec` and a value whose packet is shorter than
    -- a `FixedUsizeType` can count: `packet_size` returns the length of the packet: the
    -- reference's and the image's.
    pub packet_size_lem : packet_size c.formula c.ser v ≡ ok (packet_len c.formula w v)
    unfolding packet_size
    packet_size_lem =
        let ((size, b'), e, (bytes, z, p, es, h)) =
          Post-ok dry_frame (write_packet_into c.formula c.ser v dry_buffer) tt
            (record { within = tt; small = small })
            (write_packet_into-Ensures c w laws v val dry_buffer tt) in
        rw e (ap ok (es ∙ PacketBytes-length c.formula w v bytes p))
