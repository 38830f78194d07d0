-- ===== src/Optional/Laws.antt =====
-- The image of an option, and the implementations of src/option.rs.
use alkahest.Prelude.{
  ℕ, ◌+◌, ◌≤◌, ◌≡◌, refl, sym, ap, ◌∙◌, ◌++◌, [], ◌∷◌, true, Option, none, some, length, arith, ◌⊎◌,
  inl, inr, length-append, append_assoc, append-nil, some_inj,
}
use alkahest.Prelude.Words.{Bytes}
use alkahest.Outcome.{ok}
use alkahest.Formula.{sum_size}
use alkahest.Sizes.{Sizes, total}
use alkahest.Buffer.{Buffer}
use alkahest.Buffer.Holds.{Frame, Holds, Holds-eq, Ensures, Ensures-bind, Ensures-map, Room, Post}
use alkahest.Serialize.{write_bytes, hint_of_field, field_size_hint}
use alkahest.Serialize.Wire.{WireFormat, Written, IsSized}
use alkahest.Serialize.Wire.Field.{write_bytes-Ensures, write_field-Ensures}
use alkahest.Deserialize.Reads.{IsReader, at_end}
use alkahest.Deserialize.Fields.{read_value-last}
use alkahest.Codec.{Codec, IsCodec}
use alkahest.Primitive.Laws.{read_byte-at_end}
use alkahest.Tuple.Laws.{last_len, last_image}
use alkahest.Reference.{is_empty_stack}
use alkahest.Reference.Laws.{empty_stack}
use alkahest.Optional.{
  option, option_formula, option_serialize, option_size_hint, option_deserialize, option_variant,
  none_hint, some_hint,
}

module _ {T : Type 0} (w : WireFormat T) where
  abbrev IsOptionValue : Option T → Type 0
  IsOptionValue none = Unit
  IsOptionValue (some v) = w.IsValue v

  abbrev option_heap_len : Option T → ℕ
  option_heap_len none = 0
  option_heap_len (some v) = w.heap_len v

  abbrev option_stack_len : Option T → ℕ
  option_stack_len none = 1
  option_stack_len (some v) = w.stack_len v + 1

  -- The value below its tag byte.
  abbrev OptionWire : Option T → ℕ → Bytes → Bytes → Type 0
  OptionWire none a hb sb = (hb ≡ []) × (sb ≡ 0 ∷ [])
  OptionWire (some v) a hb sb = (sv : Bytes) × w.Wire v a hb sv × (sb ≡ sv ++ (1 ∷ []))

  pub option_lengths :
      (o : Option T) (a : ℕ) (hb sb : Bytes)
      → OptionWire o a hb sb
      → (length hb ≡ option_heap_len o) × (length sb ≡ option_stack_len o)
  option_lengths none a hb sb q = (ap length q.0, ap length q.1)
  option_lengths (some v) a hb sb (sv, q, e) =
      let (lh, ls) = w.lengths v a hb sv q in
      (lh, omega (arith, ap length e, length-append sv (1 ∷ [])))

  abbrev pub option_wire : WireFormat (Option T)
  option_wire = record {
    IsValue = IsOptionValue;
    heap_len = option_heap_len;
    stack_len = option_stack_len;
    Wire = OptionWire;
    lengths = option_lengths;
  }

-- The maximum of an option is one more than the maximum of its value.
option_max :
    (m : Option ℕ) (n : ℕ) → sum_size (some 1) m ≡ some n → (x : ℕ) × (m ≡ some x) × (n ≡ x + 1)
option_max none n e = absurd (cc e)
option_max (some x) n e = (x, refl, omega (arith, some_inj e))

pub option_unsized : (m : Option ℕ) → m ≡ none → sum_size (some 1) m ≡ none
option_unsized none e = refl
option_unsized (some x) e = absurd (cc e)

module _ {T : Type 0} (c : Codec T) (w : WireFormat T) (laws : IsCodec c w) where
  option_exact :
      (o : Option T)
      → (option_wire w).IsValue o
      → is_empty_stack c.formula.max_stack_size ≡ true
      → sum_size (some 1) c.formula.max_stack_size ≡ some (option_stack_len w o)
  option_exact none val e = ap (sum_size (some 1)) (empty_stack c.formula.max_stack_size e)
  option_exact (some v) val e =
      let m0 = empty_stack c.formula.max_stack_size e in
      let s0 : w.stack_len v ≡ 0 = omega (arith, laws.sized.bounded v 0 val m0) in
      ap (sum_size (some 1)) m0 ∙ ap (λ n. some (n + 1)) (sym s0)

  option_bounded :
      (o : Option T) (n : ℕ)
      → (option_wire w).IsValue o
      → sum_size (some 1) c.formula.max_stack_size ≡ some n
      → option_stack_len w o ≤ n
  option_bounded none n val e =
      let (x, ex, en) = option_max c.formula.max_stack_size n e in omega arith
  option_bounded (some v) n val e =
      let (x, ex, en) = option_max c.formula.max_stack_size n e in
      omega (arith, laws.sized.bounded v x val ex)

  option_free :
      (o : Option T)
      → (option_wire w).IsValue o
      → c.formula.heapless ≡ true
      → option_heap_len w o ≡ 0
  option_free none val e = refl
  option_free (some v) val e = laws.sized.heap_free v val e

  pub option-IsSized : IsSized (option_formula c.formula) (option_wire w)
  option-IsSized = record {
    bounded = option_bounded;
    exact = option_exact;
    flat = λ o val e.
        let (x, ex, en) = option_max c.formula.max_stack_size 0 e in absurd (omega arith);
    heap_free = option_free;
  }

  -- `serialize` writes the image of every option.
  pub option_serialize-Ensures :
      (o : Option T) (k : Frame) (b : Buffer) (z : Sizes) (H S : Bytes)
      → (option_wire w).IsValue o
      → Holds k b z H S
      → Ensures k
          (total z + ((option_wire w).heap_len o + (option_wire w).stack_len o))
          (Written (option_wire w) o z H S k)
          (option_serialize c.formula c.ser o z b)
  unfolding option_serialize
  option_serialize-Ensures none k b z H S val h =
      Ensures-map (write_bytes-Ensures (0 ∷ []) h) (omega arith) (λ (z', b') (eh, es, h'). (
        [],
        0 ∷ [],
        (refl, refl),
        omega (arith, eh),
        es,
        Holds-eq h' refl refl (sym (append-nil H)) refl,
      ))
  option_serialize-Ensures (some v) k b z H S val h =
      Ensures-bind k (write_bytes (1 ∷ []) z b) _ (omega arith) (write_bytes-Ensures (1 ∷ []) h)
        (λ (z1, b1) (eh, es, h1) fits room.
          (Ensures-map
              (write_field-Ensures c.ser w laws.writer c.formula true v k b1 z1 H ((1 ∷ []) ++ S)
                laws.sized val h1)
              (omega (arith, last_len c.formula.max_stack_size (w.stack_len v)))
              (λ (z2, b2) (hb, sv, q, eh', es', h2). (
                hb,
                sv ++ (1 ∷ []),
                (sv, last_image c.formula.max_stack_size (w.Wire v (length H) hb) sv q.1, refl),
                omega arith,
                omega (arith, length-append sv (1 ∷ [])),
                Holds-eq h2 refl refl refl (sym (append_assoc sv (1 ∷ []) S)),
              ))).post
            room)

  -- For a value formula that keeps the contract, whatever its maximum, and a buffer that holds
  -- a heap and a stack and has room: `serialize` of an option never panics; it fails only if
  -- the buffer is a checked one that is too short; else its image stands in the buffer, a
  -- single byte 0 for `None`, and the image of the value below a byte 1 for `Some`.
  pub option_serialize-Post :
      (o : Option T) (k : Frame) (b : Buffer) (z : Sizes) (H S : Bytes)
      → (option_wire w).IsValue o
      → Holds k b z H S
      → Room k (total z + ((option_wire w).heap_len o + (option_wire w).stack_len o))
      → Post k
          (total z + ((option_wire w).heap_len o + (option_wire w).stack_len o))
          (Written (option_wire w) o z H S k)
          (option_serialize c.formula c.ser o z b)
  option_serialize-Post o k b z H S val h room =
      (option_serialize-Ensures o k b z H S val h).post room

  -- For a value formula that keeps the contract, whatever its maximum: `deserialize` of an
  -- option returns the option whose image the stack ends in.
  pub option_reads :
      (o : Option T) (front hb mid sb pre : Bytes) (k : ℕ)
      → (option_wire w).IsValue o
      → (option_wire w).Wire o (length front) hb sb
      → pre ≡ front ++ (hb ++ mid)
      → k ≤ length pre
      → (sum_size (some 1) c.formula.max_stack_size ≡ none → k ≡ 0)
      → option_deserialize c.formula c.de (at_end pre sb k) ≡ ok o
  unfolding option_deserialize option_variant
  option_reads none front hb mid sb pre k val (eh, es) e hk h0 =
      ap (λ t. option_deserialize c.formula c.de (at_end pre t k)) es
      ∙ rw (read_byte-at_end pre 0 k)
  option_reads (some v) front hb mid sb pre k val (sv, q, es) e hk h0 =
      let regroup : at_end pre sb k ≡ at_end (pre ++ sv) (1 ∷ []) (k + length sv) =
        rw (es, ← append_assoc pre sv (1 ∷ []))
          (ap (λ n. record { input = (pre ++ sv) ++ (1 ∷ []); stack = n })
            (omega (arith, length-append sv (1 ∷ [])))) in
      let (de, r) =
        read_value-last c.formula c.de w laws.reader v front hb mid sv pre k laws.sized val q e hk
          (λ n. h0 (option_unsized c.formula.max_stack_size n)) in
      ap (option_deserialize c.formula c.de) regroup
      ∙ rw (read_byte-at_end (pre ++ sv) 1 (k + length sv), r)

  -- `deserialize` reads every image of an option.
  pub option-IsReader :
      IsReader
        (option_formula c.formula)
        (record { deserialize = option_deserialize c.formula c.de })
        (option_wire w)
  option-IsReader = record { reads = option_reads }

  -- The hint of `None` is exact where there is none, and where the value takes no stack.
  module _ (hinted : (c.formula.max_stack_size ≡ none) ⊎ (c.formula.max_stack_size ≡ some 0)) where
    option_hint :
        (o : Option T) (z : Sizes)
        → (option_wire w).IsValue o
        → option_size_hint c.formula c.ser o ≡ some z
        → (z.heap ≡ (option_wire w).heap_len o) × (z.stack ≡ (option_wire w).stack_len o)
    unfolding option_size_hint field_size_hint
    option_hint none z val e = elim hinted [
      | inl n ↦ absurd (cc (e, n))
      | inr n ↦ ground (arith, e, ap (λ m. none_hint (sum_size (some 1) m)) n)
    ]
    option_hint (some v) z val e =
        steps c.formula.max_stack_size (c.ser.size_hint v) (λ y e'. laws.writer.hint v y val e') e
      where
        steps :
            (m : Option ℕ) (o : Option Sizes)
            → ((y : Sizes) → o ≡ some y → (y.heap ≡ w.heap_len v) × (y.stack ≡ w.stack_len v))
            → some_hint (hint_of_field m true o) ≡ some z
            → (z.heap ≡ w.heap_len v) × (z.stack ≡ w.stack_len v + 1)
        steps none none p e = absurd (cc e)
        steps (some m) none p e = absurd (cc e)
        steps none (some y) p e = ground (arith, p y refl)
        steps (some m) (some y) p e = ground (arith, p y refl)

    -- If a formula keeps the contract `IsCodec` and has no maximum, or the maximum 0, then
    -- its option keeps the contract too, the size hints included.
    pub option-IsCodec : IsCodec (option c) (option_wire w)
    option-IsCodec = record {
      sized = option-IsSized;
      writer = record { writes = option_serialize-Ensures; hint = option_hint };
      reader = option-IsReader;
    }
