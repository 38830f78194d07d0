-- ===== src/Codec/RoundTrip.antt =====
-- `serialize` and then `deserialize_with_size`, and what the other entry points return.
use alkahest.Prelude.{
  ℕ, ◌+◌, ◌≤◌, ◌≡◌, refl, sym, ap, ◌∙◌, subst, ◌++◌, [], true, false, length, take, arith,
  length-append, append-nil, take-append,
}
use alkahest.Prelude.Words.{Bytes}
use alkahest.Outcome.{ok}
use alkahest.Sizes.{Sizes, sizes_zero}
use alkahest.Buffer.{
  Buffer, dry_buffer, checked_fixed_buffer, slice_buffer, maybe_fixed_buffer, vec_buffer,
  slice_bytes,
}
use alkahest.Buffer.Holds.{Frame, frame, Content, Holds, Ensures, Ensures-bind, Fits}
use alkahest.Serialize.{serialize_into, write_ref}
use alkahest.Serialize.Wire.{WireFormat}
use alkahest.Serialize.Wire.Reference.{write_ref-Ensures}
use alkahest.Deserialize.{deserialize_with_size}
use alkahest.Deserialize.Reads.{new_unchecked_lem}
use alkahest.Codec.{Codec, IsCodec}

-- The bytes that a value takes in all.
abbrev pub whole_len : {T : Type 0} → WireFormat T → T → ℕ
whole_len w v = w.heap_len v + w.stack_len v

-- The buffer holds an image of the value from its start: its total length, and its stack bytes.
abbrev pub Serialized : {T : Type 0} → WireFormat T → T → Frame → ℕ × ℕ × Buffer → Type 0
Serialized w v k (size, root, b) =
    (hb : Bytes) × (sb : Bytes) × (z : Sizes) × w.Wire v 0 hb sb
    × (root ≡ length sb)
    × (size ≡ length (hb ++ sb))
    × Holds k b z (hb ++ sb) []

module _ {T : Type 0} (c : Codec T) (w : WireFormat T) (laws : IsCodec c w) where
  -- Into an empty buffer.
  pub serialize_into-Ensures :
      (v : T) (b : Buffer)
      → w.IsValue v
      → Content b [] []
      → Ensures
          (frame b)
          (whole_len w v)
          (Serialized w v (frame b))
          (serialize_into c.formula c.ser v b)
  unfolding serialize_into
  serialize_into-Ensures v b val content =
      let h : Holds (frame b) b sizes_zero [] [] = record {
        same = refl;
        heap = refl;
        stack = refl;
        content = content;
      } in
      Ensures-bind (frame b) (write_ref c.formula c.ser v sizes_zero b) _ (omega arith)
        (write_ref-Ensures c.formula c.ser w laws.writer laws.sized v (frame b) b sizes_zero [] []
          val h)
        (λ (size, z, b') (hb, sb, q, esz, eh, es, h') fits room. (
          subst (λ n. Fits (frame b) n) (omega arith) fits,
          (hb, sb, z, q, esz, omega (arith, length-append hb sb), h'),
        ))

  -- What was serialized is deserialized from the first `size` bytes.
  pub read_serialized :
      (v : T) (buf rest hb sb : Bytes) (size root : ℕ)
      → w.IsValue v
      → w.Wire v 0 hb sb
      → buf ≡ (hb ++ sb) ++ rest
      → size ≡ length (hb ++ sb)
      → root ≡ length sb
      → deserialize_with_size c.formula c.de (take size buf) root ≡ ok v
  unfolding deserialize_with_size
  read_serialized v buf rest hb sb size root val q eb es er =
      let front : take size buf ≡ hb ++ sb =
        ap (take size) eb ∙ take-append size (hb ++ sb) rest es in
      rw (front, er, new_unchecked_lem (length sb) (hb ++ sb) (omega (arith, length-append hb sb)))
        (ap (λ n. c.de.deserialize (record { input = hb ++ sb; stack = n })) (omega arith)
          ∙ laws.reader.reads v [] hb [] sb hb 0 val q (sym (append-nil hb)) (omega arith)
              (λ _. refl))

-- The bytes of the buffer that were written.
abbrev pub HoldsBytes : Buffer → Type 0
HoldsBytes dry_buffer = ⊥
HoldsBytes (checked_fixed_buffer buf) = Unit
HoldsBytes (slice_buffer buf) = Unit
HoldsBytes (maybe_fixed_buffer buf true) = ⊥
HoldsBytes (maybe_fixed_buffer buf false) = Unit
HoldsBytes (vec_buffer buf) = Unit

pub stored :
    (b : Buffer) (H : Bytes)
    → HoldsBytes b
    → Content b H []
    → (rest : Bytes) × (slice_bytes b ≡ H ++ rest)
unfolding slice_bytes
stored dry_buffer H x c = absurd x
stored (checked_fixed_buffer buf) H x (G, e) = (G, e ∙ ap (λ t. H ++ t) (append-nil G))
stored (slice_buffer buf) H x (G, e) = (G, e ∙ ap (λ t. H ++ t) (append-nil G))
stored (maybe_fixed_buffer buf true) H x c = absurd x
stored (maybe_fixed_buffer buf false) H x (G, e) = (G, e ∙ ap (λ t. H ++ t) (append-nil G))
stored (vec_buffer buf) H x (G, e) = (G, e ∙ ap (λ t. H ++ t) (append-nil G))

-- What a successful call returns: the exact sizes, and bytes that are deserialized to the value.
abbrev pub Decodes : {T : Type 0} → Codec T → WireFormat T → T → ℕ × ℕ × Bytes → Type 0
Decodes c w v (size, root, output) =
    (size ≡ whole_len w v)
    × (root ≡ w.stack_len v)
    × (size ≤ length output)
    × (deserialize_with_size c.formula c.de (take size output) root ≡ ok v)

pub Serialized-Decodes :
    {T : Type 0} (c : Codec T) (w : WireFormat T)
    → IsCodec c w
    → (v : T) (k : Frame) (size root : ℕ) (b : Buffer) → w.IsValue v
    → HoldsBytes b
    → Serialized w v k (size, root, b)
    → Decodes c w v (size, root, slice_bytes b)
Serialized-Decodes c w laws v k size root b val x (hb, sb, z, q, er, es, h) =
    let (rest, e) = stored b (hb ++ sb) x h.content in
    let (lh, ls) = w.lengths v 0 hb sb q in
    (
      omega (arith, length-append hb sb),
      omega arith,
      omega (arith, ap length e, length-append (hb ++ sb) rest),
      read_serialized c w laws v (slice_bytes b) rest hb sb size root val q e es er,
    )
