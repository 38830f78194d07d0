-- ===== src/Deserialize/Fields.antt =====
-- `read_value` on the image of a field.
use alkahest.Prelude.{
  ℕ, ◌+◌, ◌-◌, ◌≤◌, ◌≡◌, refl, sym, ap, ◌∙◌, ◌++◌, Bool, true, false, Option, none, some, length,
  arith, min, length-append, append_assoc, some_inj,
}
use alkahest.Prelude.Words.{Bytes}
use alkahest.Outcome.{ok, ◌>>=◌}
use alkahest.Formula.{Formula}
use alkahest.Serialize.Wire.{WireFormat, IsSized}
use alkahest.Serialize.Wire.Field.{FieldWire}
use alkahest.Deserialize.{Deserializer, Deserialize, Read, sub, value_stack, read_value}
use alkahest.Deserialize.Reads.{at_end, IsReader, sub-at_end, sub_below, word, read_usize-at_end}

-- `read_value` for any constants of the formula.
abbrev read_steps :
    {T : Type 0} → Deserialize T → Option ℕ → Bool → Bool → Deserializer → Read (Deserializer × T)
read_steps d m x last de = value_stack m x last de >>= λ (de1, stack).
    sub de1 stack >>= λ (de2, s). d.deserialize s >>= λ value. ok (de2, value)

-- The padding of a field counts to the stack of its value.
pub padded :
    {T : Type 0} (f : Formula) (d : Deserialize T) (w : WireFormat T)
    → IsReader f d w
    → (m : ℕ) (v : T) (front hb mid sb pre : Bytes) → f.max_stack_size ≡ some m
    → w.IsValue v
    → FieldWire (some m) false (w.Wire v (length front) hb) sb
    → pre ≡ front ++ (hb ++ mid)
    → d.deserialize (at_end pre sb 0) ≡ ok v
padded f d w reader m v front hb mid sb pre em val (pad, sv, q, es, lm) e =
    ap d.deserialize lower
    ∙ reader.reads v front hb (mid ++ pad) sv (pre ++ pad) (length pad) val q
        (ap (λ t. t ++ pad) e
          ∙ append_assoc front (hb ++ mid) pad
          ∙ ap (λ t. front ++ t) (append_assoc hb mid pad))
        (omega (arith, length-append pre pad)) (λ e'. absurd (cc (sym em ∙ e')))
  where
    lower : at_end pre sb 0 ≡ at_end (pre ++ pad) sv (length pad)
    lower =
        rw (es, ← append_assoc pre pad sv)
          (ap (λ n. record { input = (pre ++ pad) ++ sv; stack = n })
            (omega (arith, length-append pad sv)))

module _ {T : Type 0} (f : Formula) (d : Deserialize T) (w : WireFormat T)
    (reader : IsReader f d w) where
  field_steps :
      (m : Option ℕ) (x : Bool) (v : T) (front hb mid sb pre : Bytes) (k : ℕ)
      → f.max_stack_size ≡ m
      → w.IsValue v
      → FieldWire m false (w.Wire v (length front) hb) sb
      → pre ≡ front ++ (hb ++ mid)
      → read_steps d m x false (at_end pre sb k) ≡ ok (record { input = pre; stack = k }, v)
  unfolding value_stack
  field_steps none x v front hb mid sb pre k em val (sv, q, small, es) e =
      let split : at_end pre sb k ≡ at_end (pre ++ sv) (word (length sv)) (k + length sv) =
        rw (es, ← append_assoc pre sv (word (length sv)))
          (ap (λ n. record { input = (pre ++ sv) ++ word (length sv); stack = n })
            (omega (arith, length-append sv (word (length sv))))) in
      ap (read_steps d none x false) split
      ∙ rw (
        read_usize-at_end (pre ++ sv) (length sv) (k + length sv) small,
        sub-at_end pre sv k (length sv) refl,
        reader.reads v front hb mid sv pre 0 val q e (omega arith) (λ _. refl),
      )
  field_steps (some m) x v front hb mid sb pre k em val q e = by_exactness x
    where
      inner : d.deserialize (at_end pre sb 0) ≡ ok v
      inner = padded f d w reader m v front hb mid sb pre em val q e

      by_exactness :
          (x : Bool)
          → read_steps d (some m) x false (at_end pre sb k)
            ≡ ok (record { input = pre; stack = k }, v)
      by_exactness true = rw (sub-at_end pre sb k m (sym q.4), inner)
      by_exactness false = rw (sub-at_end pre sb k m (sym q.4), inner)

  -- For a reader that keeps the contract: `read_value` of a field that is not the last, on
  -- input whose stack ends in the image of the field, returns the value, and leaves the input
  -- and the stack below the field.
  pub read_value-field :
      (v : T) (front hb mid sb pre : Bytes) (k : ℕ)
      → w.IsValue v
      → FieldWire f.max_stack_size false (w.Wire v (length front) hb) sb
      → pre ≡ front ++ (hb ++ mid)
      → read_value f d (at_end pre sb k) false ≡ ok (record { input = pre; stack = k }, v)
  unfolding read_value
  read_value-field v front hb mid sb pre k val q e =
      field_steps f.max_stack_size f.exact_size v front hb mid sb pre k refl val q e

  last_steps :
      (m : Option ℕ) (x : Bool) (v : T) (front hb mid sb pre : Bytes) (k : ℕ)
      → f.max_stack_size ≡ m
      → f.exact_size ≡ x
      → IsSized f w
      → w.IsValue v
      → w.Wire v (length front) hb sb
      → pre ≡ front ++ (hb ++ mid)
      → k ≤ length pre
      → (m ≡ none → k ≡ 0)
      → (de : Deserializer) × (read_steps d m x true (at_end pre sb k) ≡ ok (de, v))
  unfolding value_stack
  last_steps none x v front hb mid sb pre k em ex sized val q e hk h0 =
      let (de, r) = sub_below pre sb k k (k + length sb) refl (omega arith) hk in
      (de, rw (r, reader.reads v front hb mid sb pre k val q e hk (λ _. h0 refl)))
  last_steps (some m) false v front hb mid sb pre k em ex sized val q e hk h0 =
      let ls = (w.lengths v (length front) hb sb q).1 in
      let le : length sb ≤ m = omega (arith, sized.bounded v m val em) in
      let n : ℕ = min m (k + length sb) - length sb in
      let whole : min m (k + length sb) ≡ n + length sb = omega arith in
      let (de, r) = sub_below pre sb k n (min m (k + length sb)) whole (omega arith) hk in
      (
        de,
        rw (
          r,
          reader.reads v front hb mid sb pre n val q e (omega arith)
              (λ e'. absurd (cc (sym em ∙ e'))),
        ),
      )
  last_steps (some m) true v front hb mid sb pre k em ex sized val q e hk h0 =
      let ls = (w.lengths v (length front) hb sb q).1 in
      let lm : m ≡ 0 + length sb =
        some_inj (sym em ∙ sized.exact v val ex) ∙ sym ls ∙ omega arith in
      let (de, r) = sub_below pre sb k 0 m lm (omega arith) hk in
      (de, rw (r, reader.reads v front hb mid sb pre 0 val q e (omega arith) (λ _. refl)))

  -- For a reader that keeps the contract and a formula whose constants bound it: `read_value`
  -- of the last field returns the value of the image that the stack ends in, and bytes below
  -- the image are skipped where the formula has a maximum.
  pub read_value-last :
      (v : T) (front hb mid sb pre : Bytes) (k : ℕ)
      → IsSized f w
      → w.IsValue v
      → w.Wire v (length front) hb sb
      → pre ≡ front ++ (hb ++ mid)
      → k ≤ length pre
      → (f.max_stack_size ≡ none → k ≡ 0)
      → (de : Deserializer) × (read_value f d (at_end pre sb k) true ≡ ok (de, v))
  unfolding read_value
  read_value-last v front hb mid sb pre k sized val q e hk h0 =
      last_steps f.max_stack_size f.exact_size v front hb mid sb pre k refl refl sized val q e hk h0
