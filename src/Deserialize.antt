-- ===== src/Deserialize.antt =====
-- src/deserialize.rs: `Deserializer` and its methods, the `Deserialize` trait and its entry points.
pub mod Reads
pub mod References
pub mod Fields
use alkahest.Prelude.{
  ℕ, ◌+◌, ◌-◌, ◌*◌, Bool, true, false, Option, none, some, leb, ltb, ◌==◌, if◌then◌else◌, length,
  take, drop, min, List, [], ◌∷◌, ◌||◌,
}
use alkahest.Prelude.Words.{Bytes, from_le_bytes}
use alkahest.Outcome.{Outcome, ok, err, panic, ◌>>=◌, ◌>>◌, assert, checked_sub}
use alkahest.Formula.{Formula, size_stack, reference_size}

-- `InvalidUsize` and `InvalidIsize` carry the value, `WrongVariant` the variant; `NonUtf8` drops the
-- library's report.
pub data DeserializeError : Type 0 where
  out_of_bounds wrong_address wrong_length : DeserializeError
  invalid_usize invalid_isize wrong_variant : ℕ → DeserializeError
  non_utf8 integer_overflow incompatible : DeserializeError

abbrev pub Read : Type 0 → Type 0
Read = Outcome DeserializeError

pub record Deserializer : Type 0 where
  pub input : Bytes
  pub stack : ℕ

-- `Deserialize<'de, F> for T`
pub record Deserialize (T : Type 0) : Type 0 where
  pub deserialize : Deserializer → Read T

unfoldable pub new_unchecked : ℕ → Bytes → Read Deserializer
new_unchecked stack input = do
  assert (leb stack (length input))
  ok (record { input = input; stack = stack })

unfoldable pub new : ℕ → Bytes → Read Deserializer
unfolding new_unchecked
new stack input = if ltb (length input) stack then err out_of_bounds else new_unchecked stack input

-- The deserializer that is left, and the one that is split off.
unfoldable pub sub : Deserializer → ℕ → Read (Deserializer × Deserializer)
unfolding new_unchecked checked_sub
sub de stack = if ltb de.stack stack then err wrong_length else (do
  s ← new_unchecked stack de.input
  end ← checked_sub (length de.input) stack
  ok (record { input = take end de.input; stack = de.stack - stack }, s))

-- `read_byte_array` does the same at a constant length.
unfoldable pub read_bytes : Deserializer → ℕ → Read (Deserializer × Bytes)
unfolding checked_sub
read_bytes de len = if ltb de.stack len then err wrong_length else (do
  at ← checked_sub (length de.input) len
  ok (record { input = take at de.input; stack = de.stack - len }, drop at de.input))

-- The last byte; `unreachable!()` where there is none.
unfoldable pub single_byte : Bytes → Read ℕ
single_byte (x ∷ []) = ok x
single_byte [] = panic
single_byte (x ∷ y ∷ r) = panic

unfoldable pub read_byte : Deserializer → Read (Deserializer × ℕ)
unfolding checked_sub single_byte
read_byte de = if de.stack == 0 then err wrong_length else (do
  at ← checked_sub (length de.input) 1
  last ← single_byte (drop at de.input)
  ok (record { input = take at de.input; stack = de.stack - 1 }, last))

unfoldable pub read_all_bytes : Deserializer → Read Bytes
unfolding checked_sub
read_all_bytes de = do at ← checked_sub (length de.input) de.stack; ok (drop at de.input)

-- src/size.rs, on a platform whose `usize` holds every `FixedUsizeType`.
unfoldable pub deserialize_usize : Deserializer → Read ℕ
unfolding read_bytes
deserialize_usize de = do (_, input) ← read_bytes de size_stack; ok (from_le_bytes input)

unfoldable pub read_usize : Deserializer → Read (Deserializer × ℕ)
unfolding sub deserialize_usize
read_usize de = do (de', s) ← sub de size_stack; value ← deserialize_usize s; ok (de', value)

-- How much of the stack `read_value` hands to the value.
unfoldable pub value_stack : Option ℕ → Bool → Bool → Deserializer → Read (Deserializer × ℕ)
unfolding read_usize
value_stack none exact false de = read_usize de
value_stack none exact true de = ok (de, de.stack)
value_stack (some max_stack) false true de = ok (de, min max_stack de.stack)
value_stack (some max_stack) false false de = ok (de, max_stack)
value_stack (some max_stack) true last de = ok (de, max_stack)

module _ {T : Type 0} (f : Formula) (d : Deserialize T) where
  unfoldable pub read_value : Deserializer → Bool → Read (Deserializer × T)
  unfolding value_stack sub
  read_value de last = do
    (de1, stack) ← value_stack f.max_stack_size f.exact_size last de
    (de2, s) ← sub de1 stack
    value ← d.deserialize s
    ok (de2, value)

-- `unwrap_size`: the code does not compile where there is no size.
abbrev pub unwrap_size : Option ℕ → Read ℕ
unwrap_size none = panic
unwrap_size (some a) = ok a

-- `.unwrap()`, and `let Ok(..) = .. else { unreachable!() }`
abbrev pub expect_ok : {A : Type 0} → Read A → Read A
expect_ok (ok a) = ok a
expect_ok (err e) = panic
expect_ok panic = panic

-- `[usize; 2]`, read as an array of two fields that are not the last.
unfoldable pub read_usize_pair : Deserializer → Read (ℕ × ℕ)
unfolding sub deserialize_usize
read_usize_pair de = do
  (_, pair) ← sub de (size_stack * 2)
  (de1, s1) ← sub pair size_stack
  first ← deserialize_usize s1
  (_, s2) ← sub de1 size_stack
  second ← deserialize_usize s2
  ok (first, second)

-- The address and the size that a reference holds, `len` being what the size is cut to.
unfoldable pub read_reference : Formula → Bytes → ℕ → Read (ℕ × ℕ)
unfolding new read_usize read_usize_pair reference_size
read_reference f input len = do
  assert (leb (reference_size f) (length input))
  de ← expect_ok (new (reference_size f) (take (reference_size f) input))
  if f.exact_size
      then (do
        (_, address) ← expect_ok (read_usize de)
        max_stack ← unwrap_size f.max_stack_size
        ok (address, min max_stack len))
      else (do (size, address) ← expect_ok (read_usize_pair de); ok (address, size))

unfoldable pub deref : Formula → Deserializer → Read Deserializer
unfolding read_reference new checked_sub reference_size
deref f de = if ltb de.stack (reference_size f) then err out_of_bounds else (do
  at ← checked_sub (length de.input) (reference_size f)
  let head = take at de.input
  (address, size) ← read_reference f (drop at de.input) (length head)
  if ltb (length head) address then err wrong_address else new size (take address head))

module _ {T : Type 0} (f : Formula) (d : Deserialize T) where
  unfoldable pub root_stack : Option ℕ → Bytes → ℕ
  root_stack none input = length input
  root_stack (some max_stack) input = min max_stack (length input)

  abbrev is_some : Option ℕ → Bool
  is_some none = false
  is_some (some m) = true

  unfoldable pub deserialize : Bytes → Read T
  unfolding root_stack new_unchecked
  deserialize input = do
    assert (f.heapless || is_some f.max_stack_size)
    de ← new_unchecked (root_stack f.max_stack_size input) input
    d.deserialize de

  unfoldable pub deserialize_with_size : Bytes → ℕ → Read T
  unfolding new_unchecked
  deserialize_with_size input stack = do de ← new_unchecked stack input; d.deserialize de
