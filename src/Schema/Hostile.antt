-- ===== src/Schema/Hostile.antt =====
-- The readers of a schema and the entry points of src/deserialize.rs and src/packet.rs, on any bytes.
use alkahest.Prelude.{
  ℕ, ◌-◌, ◌≤◌, ◌≡◌, ◌≢◌, ◌<◌, ◌⊎◌, inl, inr, le_or_lt, lt→leb_false, Bool, length, length-take,
  take, arith,
}
use alkahest.Prelude.Words.{Bytes}
use alkahest.Outcome.{panic}
use alkahest.Formula.{reference_size}
use alkahest.Deserialize.{deserialize_with_size, new_unchecked, read_reference}
use alkahest.Deserialize.Reads.{new_unchecked_lem}
use alkahest.Packet.{read_packet}
use alkahest.Safety.{Returns, Returns-bind, Returns-ltb, Returns-not_panic}
use alkahest.Safety.References.{read_reference-Returns}
use alkahest.Safety.Formulas.{
  Safe, int-Safe, bool-Safe, usize-Safe, bytes-Safe, str-Safe, empty-Safe, tuple_last-Safe,
  tuple_cons-Safe, option-Safe, ref-Safe, slice-Safe, array-Safe,
}
use alkahest.Schema.{
  Schema, codec, integer, boolean, word, raw_bytes, text, unit, last_field, field, optional, boxed,
  elements, elements_of,
}

pub codec-Safe : (is_utf8 : Bytes → Bool) (s : Schema) → Safe (codec is_utf8 s)
unfolding codec
codec-Safe is_utf8 (integer w) = int-Safe w
codec-Safe is_utf8 boolean = bool-Safe
codec-Safe is_utf8 word = usize-Safe
codec-Safe is_utf8 raw_bytes = bytes-Safe
codec-Safe is_utf8 text = str-Safe is_utf8
codec-Safe is_utf8 unit = empty-Safe
codec-Safe is_utf8 (last_field s) = tuple_last-Safe (codec is_utf8 s) (codec-Safe is_utf8 s)
codec-Safe is_utf8 (field s r) =
    tuple_cons-Safe (codec is_utf8 s) (codec-Safe is_utf8 s) (codec is_utf8 r)
      (codec-Safe is_utf8 r)
codec-Safe is_utf8 (optional s) = option-Safe (codec is_utf8 s) (codec-Safe is_utf8 s)
codec-Safe is_utf8 (boxed s) = ref-Safe (codec is_utf8 s) (codec-Safe is_utf8 s)
codec-Safe is_utf8 (elements s) = slice-Safe (codec is_utf8 s) (codec-Safe is_utf8 s)
codec-Safe is_utf8 (elements_of n s) = array-Safe (codec is_utf8 s) (codec-Safe is_utf8 s) n

module _ (is_utf8 : Bytes → Bool) (s : Schema) where
  with_size-Returns :
      (input : Bytes) (stack : ℕ)
      → stack ≤ length input
      → Returns
          (λ v. Unit)
          (deserialize_with_size (codec is_utf8 s).formula (codec is_utf8 s).de input stack)
  unfolding deserialize_with_size
  with_size-Returns input stack h = rw (new_unchecked_lem stack input h) (
      (codec-Safe is_utf8 s).returns (record { input = input; stack = stack })
        (record { within = h }))

  with_size-panics :
      (input : Bytes) (stack : ℕ)
      → length input < stack
      → deserialize_with_size (codec is_utf8 s).formula (codec is_utf8 s).de input stack ≡ panic
  unfolding deserialize_with_size new_unchecked
  with_size-panics input stack h = rw (lt→leb_false stack (length input) h)

  -- For every schema, and so for every formula that is built from those of integers, `bool`,
  -- `usize`, byte slices, strings, tuples, `Option`, `Ref`, slices and arrays, and every test
  -- of valid UTF-8: on every input, `deserialize_with_size` does not panic if the stack is
  -- within the input, and panics if it is not.
  pub deserialize_with_size-cases :
      (input : Bytes) (stack : ℕ)
      → ((stack ≤ length input)
          × (deserialize_with_size (codec is_utf8 s).formula (codec is_utf8 s).de input stack
              ≢ panic))
        ⊎ ((length input < stack)
            × (deserialize_with_size (codec is_utf8 s).formula (codec is_utf8 s).de input stack
                ≡ panic))
  deserialize_with_size-cases input stack = elim (le_or_lt stack (length input)) [
    | inl h ↦ inl (h, Returns-not_panic _ _ (with_size-Returns input stack h))
    | inr h ↦ inr (h, with_size-panics input stack h)
  ]

  -- For every schema, and so for every formula that is built from those of integers, `bool`,
  -- `usize`, byte slices, strings, tuples, `Option`, `Ref`, slices and arrays, and every test
  -- of valid UTF-8: `read_packet` on every input returns an error, or a value and a number of
  -- bytes within the input, and never panics.
  pub read_packet-Returns :
      (input : Bytes)
      → Returns
          (λ (v, n). n ≤ length input)
          (read_packet (codec is_utf8 s).formula (codec is_utf8 s).de input)
  unfolding read_packet
  read_packet-Returns input =
      Returns-ltb _ (length input) (reference_size (codec is_utf8 s).formula) _ _ (λ h. tt)
        (λ h.
          Returns-bind (λ r. Unit) _
            (read_reference (codec is_utf8 s).formula input
              (length input - reference_size (codec is_utf8 s).formula))
            _
            (read_reference-Returns (codec is_utf8 s).formula (codec-Safe is_utf8 s).sized input
              (length input - reference_size (codec is_utf8 s).formula) h)
            (λ (address, size) u.
              Returns-ltb _ address size _ _ (λ h. tt)
                (λ h1.
                  Returns-ltb _ (length input) address _ _ (λ h. tt)
                    (λ h2.
                      let l = length-take address input in
                      rw (new_unchecked_lem size (take address input) (omega arith)) (
                        Returns-bind (λ v. Unit) _
                          ((codec is_utf8 s).de.deserialize
                            (record { input = take address input; stack = size }))
                          _ ((codec-Safe is_utf8 s).returns _ (record { within = omega arith }))
                          (λ v u. h2))))))
