-- ===== src/Primitive/Laws.antt =====
-- The images of the formulas of src/primitive.rs, src/size.rs, src/bytes.rs and src/str.rs, whose values
-- are bytes on the stack and nothing on the heap.
use alkahest.Prelude.{
  ℕ, ◌+◌, ◌-◌, ◌<◌, ◌^◌, ◌≡◌, refl, sym, ap, ◌∙◌, ◌++◌, [], ◌∷◌, Bool, true, false, not, ◌==◌, none,
  some, length, arith, append-nil, some_inj, take-append, drop-append, length-append,
}
use alkahest.Prelude.Words.{Bytes, to_le_bytes, length-to_le_bytes, from-to_le_bytes}
use alkahest.Outcome.{ok, sub_eq}
use alkahest.Formula.{size_stack, usize_limit}
use alkahest.Size.{usize_truncate_lem}
use alkahest.Sizes.{Sizes, total}
use alkahest.Buffer.{Buffer}
use alkahest.Buffer.Holds.{Frame, Holds, Holds-eq, Ensures, Ensures-map}
use alkahest.Serialize.{write_bytes}
use alkahest.Serialize.Wire.{WireFormat, Written, IsSized}
use alkahest.Serialize.Wire.Field.{write_bytes-Ensures}
use alkahest.Deserialize.{read_byte, read_all_bytes}
use alkahest.Deserialize.Reads.{at_end, read_bytes-at_end, deserialize_usize-at_end}
use alkahest.Codec.{Codec, IsCodec}
use alkahest.Primitive.{
  int, int_serialize, int_deserialize, bool, bool_serialize, bool_deserialize, byte_of, usize,
  serialize_usize, bytes, bytes_serialize, str, str_deserialize, fixed_formula, unsized_formula,
}

-- Values that have `IsValue` and whose image is `image v` on the stack.
abbrev pub flat_wire : {T : Type 0} → (T → Type 0) → (T → Bytes) → WireFormat T
flat_wire IsValue image = record {
  IsValue = IsValue;
  heap_len = λ v. 0;
  stack_len = λ v. length (image v);
  Wire = λ v a hb sb. (hb ≡ []) × (sb ≡ image v);
  lengths = λ v a hb sb q. (ap length q.0, ap length q.1);
}

module _ {T : Type 0} (IsValue : T → Type 0) (image : T → Bytes) where
  flat-Written :
      (v : T) (k : Frame) (b : Buffer) (z : Sizes) (H S : Bytes)
      → Holds k b z H S
      → Ensures k
          (total z + (0 + length (image v)))
          (Written (flat_wire IsValue image) v z H S k)
          (write_bytes (image v) z b)
  flat-Written v k b z H S h =
      Ensures-map (write_bytes-Ensures (image v) h) (omega arith) (λ (z', b') (eh, es, h'). (
        [],
        image v,
        (refl, refl),
        omega (arith, eh),
        es,
        Holds-eq h' refl refl (sym (append-nil H)) refl,
      ))

  -- An implementation that writes the image by `write_bytes` and reads it back keeps the contract.
  flat-IsCodec :
      (c : Codec T)
      → IsSized c.formula (flat_wire IsValue image)
      → ((v : T) (z : Sizes) (b : Buffer)
          → IsValue v
          → c.ser.serialize v z b ≡ write_bytes (image v) z b)
      → ((v : T) (z : Sizes)
          → c.ser.size_hint v ≡ some z
          → (z.heap ≡ 0) × (z.stack ≡ length (image v)))
      → ((v : T) (pre : Bytes) (k : ℕ)
          → IsValue v
          → (c.formula.max_stack_size ≡ none → k ≡ 0)
          → c.de.deserialize (at_end pre (image v) k) ≡ ok v)
      → IsCodec c (flat_wire IsValue image)
  flat-IsCodec c sized writes hints reads = record {
    sized = sized;
    writer = record {
      writes = λ v k b z H S val h. rw (writes v z b val) (flat-Written v k b z H S h);
      hint = λ v z val e. hints v z e;
    };
    reader = record {
      reads = λ v front hb mid sb pre k val q e hk h0.
          ap (λ t. c.de.deserialize (at_end pre t k)) q.1 ∙ reads v pre k val h0;
    };
  }

  -- The constants of a fixed size.
  fixed-IsSized :
      (n : ℕ)
      → ((v : T) → length (image v) ≡ n)
      → IsSized (fixed_formula n) (flat_wire IsValue image)
  fixed-IsSized n l = record {
    bounded = λ v m val e. omega (arith, some_inj e, l v);
    exact = λ v val e. ap some (sym (l v));
    flat = λ v val e. refl;
    heap_free = λ v val e. refl;
  }

  unsized-IsSized : IsSized unsized_formula (flat_wire IsValue image)
  unsized-IsSized = record {
    bounded = λ v m val e. absurd (cc e);
    exact = λ v val e. absurd (cc e);
    flat = λ v val e. refl;
    heap_free = λ v val e. refl;
  }

abbrev pub int_wire : ℕ → WireFormat ℕ
int_wire w = flat_wire (λ v. v < 256 ^ w) (to_le_bytes w)

-- The implementations of the integers of a width in bytes keep the contract `IsCodec` with the
-- format of their little-endian bytes.
pub int-IsCodec : (w : ℕ) → IsCodec (int w) (int_wire w)
unfolding int_serialize int_deserialize
int-IsCodec w =
    flat-IsCodec (λ v. v < 256 ^ w) (to_le_bytes w) (int w)
      (fixed-IsSized (λ v. v < 256 ^ w) (to_le_bytes w) w (length-to_le_bytes w))
      (λ v z b val. refl)
      (λ v z e.
        let e' = some_inj e in
        (ap heap_of (sym e'), ap stack_of (sym e') ∙ sym (length-to_le_bytes w v)))
      (λ v pre k val h0.
        rw (read_bytes-at_end pre (to_le_bytes w v) k w (sym (length-to_le_bytes w v)))
          (ap ok (from-to_le_bytes w v val)))
  where
    heap_of : Sizes → ℕ
    heap_of z = z.heap

    stack_of : Sizes → ℕ
    stack_of z = z.stack

abbrev pub usize_wire : WireFormat ℕ
usize_wire = flat_wire (λ v. v < usize_limit) (to_le_bytes size_stack)

pub usize-IsCodec : IsCodec usize usize_wire
unfolding serialize_usize
usize-IsCodec =
    flat-IsCodec (λ v. v < usize_limit) (to_le_bytes size_stack) usize
      (fixed-IsSized (λ v. v < usize_limit) (to_le_bytes size_stack) size_stack
        (length-to_le_bytes size_stack))
      (λ v z b val. rw (usize_truncate_lem v val))
      (λ v z e. (cc e, cc (e, length-to_le_bytes size_stack v)))
      (λ v pre k val h0. deserialize_usize-at_end pre v k val)

pub read_byte-at_end :
    (pre : Bytes) (x k : ℕ)
    → read_byte (at_end pre (x ∷ []) k) ≡ ok (record { input = pre; stack = k }, x)
unfolding read_byte
read_byte-at_end pre x k =
    let len = length-append pre (x ∷ []) in
    let some_left : (k + 1 == 0) ≡ false = ground arith in
    let left : k + 1 - 1 ≡ k = omega arith in
    rw (
      some_left,
      sub_eq (length (pre ++ (x ∷ []))) 1 (length pre) (omega arith),
      take-append (length pre) pre (x ∷ []) refl,
      drop-append (length pre) pre (x ∷ []) refl,
      left,
    )

abbrev pub bool_wire : WireFormat Bool
bool_wire = flat_wire (λ v. Unit) (λ v. byte_of v ∷ [])

bool_back : (v : Bool) → not (byte_of v == 0) ≡ v
bool_back true = refl
bool_back false = refl

pub bool-IsCodec : IsCodec bool bool_wire
unfolding bool_serialize bool_deserialize
bool-IsCodec =
    flat-IsCodec (λ v. Unit) (λ v. byte_of v ∷ []) bool
      (fixed-IsSized (λ v. Unit) (λ v. byte_of v ∷ []) 1 (λ v. refl)) (λ v z b val. refl)
      (λ v z e. (cc e, cc e))
      (λ v pre k val h0. rw (read_byte-at_end pre (byte_of v) k) (ap ok (bool_back v)))

read_all_bytes-at_end : (pre bytes : Bytes) → read_all_bytes (at_end pre bytes 0) ≡ ok bytes
unfolding read_all_bytes
read_all_bytes-at_end pre bytes = rw (
  sub_eq (length (pre ++ bytes)) (0 + length bytes) (length pre)
      (omega (arith, length-append pre bytes)),
  drop-append (length pre) pre bytes refl,
)

abbrev pub bytes_wire : WireFormat Bytes
bytes_wire = flat_wire (λ v. Unit) (λ v. v)

-- The end of the stack is the end of the bytes: nothing may stand below them.
pub bytes-IsCodec : IsCodec bytes bytes_wire
unfolding bytes_serialize
bytes-IsCodec =
    flat-IsCodec (λ v. Unit) (λ v. v) bytes (unsized-IsSized (λ v. Unit) (λ v. v))
      (λ v z b val. refl) (λ v z e. (cc e, cc e))
      (λ v pre k val h0.
        ap (λ n. read_all_bytes (record { input = pre ++ v; stack = n + length v })) (h0 refl)
        ∙ read_all_bytes-at_end pre v)

-- The strings are the byte sequences that `is_utf8` accepts.
abbrev pub str_wire : (Bytes → Bool) → WireFormat Bytes
str_wire is_utf8 = flat_wire (λ v. is_utf8 v ≡ true) (λ v. v)

-- For every test of valid UTF-8: the implementations of `str` keep the contract `IsCodec` for the
-- byte sequences that the test accepts.
pub str-IsCodec : (is_utf8 : Bytes → Bool) → IsCodec (str is_utf8) (str_wire is_utf8)
unfolding bytes_serialize str_deserialize
str-IsCodec is_utf8 =
    flat-IsCodec (λ v. is_utf8 v ≡ true) (λ v. v) (str is_utf8)
      (unsized-IsSized (λ v. is_utf8 v ≡ true) (λ v. v)) (λ v z b val. refl) (λ v z e. (cc e, cc e))
      (λ v pre k val h0.
        ap (λ n. str_deserialize is_utf8 (record { input = pre ++ v; stack = n + length v }))
          (h0 refl)
        ∙ rw (read_all_bytes-at_end pre v, val))
