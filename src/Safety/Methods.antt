-- ===== src/Safety/Methods.antt =====
-- `sub`, `read_bytes`, `read_byte`, `read_all_bytes`, `read_usize`, `read_value`, `read_reference` and
-- `deref` of src/deserialize.rs on any deserializer.
use alkahest.Prelude.{
  ℕ, ◌+◌, ◌-◌, ◌≤◌, ◌<◌, ◌≡◌, refl, Bool, true, false, Option, none, some, ◌==◌, eq→==, lt→ltb,
  le_or_lt, [], ◌∷◌, length, take, drop, le→ltb_false, arith, length-take, length-drop, inl, inr,
}
use alkahest.Prelude.Words.{Bytes}
use alkahest.Outcome.{ok, err, sub_lem}
use alkahest.Formula.{Formula, size_stack}
use alkahest.Deserialize.{
  Deserializer, Deserialize, new, sub, read_bytes, read_byte, single_byte, read_all_bytes,
  deserialize_usize, read_usize, value_stack, read_value, wrong_length,
}
use alkahest.Deserialize.Reads.{new_unchecked_lem}
use alkahest.Safety.{Returns, Returns-bind, Returns-map, Returns-ltb, IsSound, IsSafe}

-- What a call takes from the end of a deserializer leaves a sound one, with that much less stack.
abbrev pub Left : Deserializer → ℕ → Deserializer → Type 0
Left de n de' = IsSound de' × (de'.stack + n ≡ de.stack)

abbrev pub split : (de : Deserializer) (n : ℕ) → Deserializer
split de n = record { input = take (length de.input - n) de.input; stack = de.stack - n }

pub split-Left : (de : Deserializer) (n : ℕ) → IsSound de → n ≤ de.stack → Left de n (split de n)
split-Left de n s h =
    let l = length-take (length de.input - n) de.input in
    let w = s.within in (record { within = omega arith }, omega arith)

-- The bytes that are split off.
abbrev pub part : Deserializer → ℕ → Deserializer
part de n = record { input = de.input; stack = n }

pub part-IsSound : (de : Deserializer) (n : ℕ) → IsSound de → n ≤ de.stack → IsSound (part de n)
part-IsSound de n s h = let w = s.within in record { within = omega arith }

pub sub_splits :
    (de : Deserializer) (n : ℕ) → IsSound de → n ≤ de.stack → sub de n ≡ ok (split de n, part de n)
unfolding sub
sub_splits de n s h =
    let w = s.within in
    rw (
      le→ltb_false de.stack n h,
      new_unchecked_lem n de.input (omega arith),
      sub_lem (length de.input) n (omega arith),
    )

sub_refuses : (de : Deserializer) (n : ℕ) → de.stack < n → sub de n ≡ err wrong_length
unfolding sub
sub_refuses de n h = rw (lt→ltb de.stack n h)

abbrev pub Halves : Deserializer → ℕ → Deserializer × Deserializer → Type 0
Halves de n (de', s) = Left de n de' × IsSound s × (s.stack ≡ n)

pub sub-Returns : (de : Deserializer) (n : ℕ) → IsSound de → Returns (Halves de n) (sub de n)
sub-Returns de n s = elim (le_or_lt n de.stack) [
  | inl h ↦ rw (sub_splits de n s h) (split-Left de n s h, part-IsSound de n s h, refl)
  | inr h ↦ rw (sub_refuses de n h) tt
]

pub read_bytes_splits :
    (de : Deserializer) (n : ℕ)
    → IsSound de
    → n ≤ de.stack
    → read_bytes de n ≡ ok (split de n, drop (length de.input - n) de.input)
unfolding read_bytes
read_bytes_splits de n s h =
    let w = s.within in rw (le→ltb_false de.stack n h, sub_lem (length de.input) n (omega arith))

read_bytes_refuses : (de : Deserializer) (n : ℕ) → de.stack < n → read_bytes de n ≡ err wrong_length
unfolding read_bytes
read_bytes_refuses de n h = rw (lt→ltb de.stack n h)

pub read_bytes-Returns :
    (de : Deserializer) (n : ℕ)
    → IsSound de
    → Returns (λ (de', bytes). Left de n de' × (length bytes ≡ n)) (read_bytes de n)
read_bytes-Returns de n s = elim (le_or_lt n de.stack) [
  | inl h ↦
      let w = s.within in
      rw (read_bytes_splits de n s h)
        (split-Left de n s h, omega (arith, length-drop (length de.input - n) de.input))
  | inr h ↦ rw (read_bytes_refuses de n h) tt
]

single_byte-Returns : (bytes : Bytes) → length bytes ≡ 1 → Returns (λ x. Unit) (single_byte bytes)
unfolding single_byte
single_byte-Returns [] e = absurd (omega arith)
single_byte-Returns (x ∷ []) e = tt
single_byte-Returns (x ∷ y ∷ r) e = absurd (omega arith)

pub read_byte-Returns :
    (de : Deserializer) → IsSound de → Returns (λ (de', byte). Left de 1 de') (read_byte de)
unfolding read_byte
read_byte-Returns de s = elim (le_or_lt 1 de.stack) [
  | inl h ↦
      let w = s.within in
      let some_left : (de.stack == 0) ≡ false = ground arith in
      rw (some_left, sub_lem (length de.input) 1 (omega arith))
        (Returns-bind (λ x. Unit) _ (single_byte (drop (length de.input - 1) de.input)) _
          (single_byte-Returns _ (omega (arith, length-drop (length de.input - 1) de.input)))
          (λ x u. split-Left de 1 s h))
  | inr h ↦ rw (eq→== de.stack 0 (omega arith)) tt
]

pub read_all_bytes-Returns :
    (de : Deserializer)
    → IsSound de
    → Returns (λ bytes. length bytes ≡ de.stack) (read_all_bytes de)
unfolding read_all_bytes
read_all_bytes-Returns de s =
    let w = s.within in
    rw (sub_lem (length de.input) de.stack w)
      (omega (arith, length-drop (length de.input - de.stack) de.input))

pub deserialize_usize-Returns :
    (de : Deserializer) → IsSound de → Returns (λ v. Unit) (deserialize_usize de)
unfolding deserialize_usize
deserialize_usize-Returns de s =
    Returns-bind _ (λ v. Unit) (read_bytes de size_stack) _ (read_bytes-Returns de size_stack s)
      (λ r p. tt)

pub read_usize-Returns :
    (de : Deserializer) → IsSound de → Returns (λ (de', v). Left de size_stack de') (read_usize de)
unfolding read_usize
read_usize-Returns de s =
    Returns-bind (Halves de size_stack) _ (sub de size_stack) _ (sub-Returns de size_stack s)
      (λ (de', part) (left, sound, e).
        Returns-bind (λ v. Unit) _ (deserialize_usize part) _ (deserialize_usize-Returns part sound)
          (λ v u. left))

-- What `read_value` leaves: a sound deserializer whose stack has not grown.
abbrev pub Shrunk : Deserializer → Deserializer → Type 0
Shrunk de de' = IsSound de' × (de'.stack ≤ de.stack)

value_stack-Returns :
    (m : Option ℕ) (x last : Bool) (de : Deserializer)
    → IsSound de
    → Returns (λ (de', n). Shrunk de de') (value_stack m x last de)
unfolding value_stack
value_stack-Returns none x false de s =
    Returns-map _ _ (read_usize de) (read_usize-Returns de s) (λ r (sound, e). (sound, omega arith))
value_stack-Returns none x true de s = (s, omega arith)
value_stack-Returns (some m) false true de s = (s, omega arith)
value_stack-Returns (some m) false false de s = (s, omega arith)
value_stack-Returns (some m) true last de s = (s, omega arith)

module _ {T : Type 0} (f : Formula) (d : Deserialize T) (safe : IsSafe f d) where
  -- For a reader that returns on every input, and a deserializer whose stack is within its
  -- input: `read_value` returns; where it succeeds, the stack of the deserializer is still
  -- within its input, and has not grown.
  pub read_value-Returns :
      (de : Deserializer) (last : Bool)
      → IsSound de
      → Returns (λ (de', v). Shrunk de de') (read_value f d de last)
  unfolding read_value
  read_value-Returns de last s =
      Returns-bind (λ (de1, n). Shrunk de de1) _ (value_stack f.max_stack_size f.exact_size last de)
        _ (value_stack-Returns f.max_stack_size f.exact_size last de s)
        (λ (de1, n) (s1, le).
          Returns-bind (Halves de1 n) _ (sub de1 n) _ (sub-Returns de1 n s1)
            (λ (de2, part) (left, sound, e).
              Returns-bind (λ v. Unit) _ (d.deserialize part) _ (safe.returns part sound)
                (λ v u. (left.0, omega (arith, left.1)))))

pub new-Returns : (n : ℕ) (input : Bytes) → Returns IsSound (new n input)
unfolding new
new-Returns n input =
    Returns-ltb IsSound (length input) n _ _ (λ h. tt)
      (λ h. rw (new_unchecked_lem n input h) (record { within = h }))
