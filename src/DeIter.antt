-- ===== src/DeIter.antt =====
-- src/deserialize.rs: `DeIter`, the iterator over deserialized values, and the methods of
-- `Deserializer` that it is made by and that it calls. A method that changes its state and may fail
-- returns both, so that iteration can go on behind an item that is an error.
pub mod Settled
pub mod Split
pub mod Moves
pub mod Skips
pub mod Deque
pub mod Loop
pub mod Fold
use alkahest.Prelude.{
  ℕ, zero, suc, ◌+◌, ◌-◌, ◌*◌, ◌/◌, Bool, true, false, Option, none, some, List, [], ◌∷◌, leb, ltb,
  ◌==◌, ◌||◌, if◌then◌else◌, length, take,
}
use alkahest.Prelude.Words.{Bytes}
use alkahest.Outcome.{ok, err, panic, ◌>>=◌, ◌>>◌, assert, checked_sub}
use alkahest.Formula.{Formula, size_stack}
use alkahest.Deserialize.{
  Deserializer, Deserialize, Read, new_unchecked, sub, read_bytes, read_usize, deserialize_usize,
  unwrap_size, wrong_length,
}
use alkahest.Slice.{stack_empty, unwrap_or_zero, iter_upper}

-- The state after a call that moves on only where it succeeds, and what the call returns.
abbrev pub kept : {A : Type 0} → Deserializer → Read (Deserializer × A) → Deserializer × Read A
kept de (ok (de', a)) = (de', ok a)
kept de (err e) = (de, err e)
kept de panic = (de, panic)

-- `?` on a result beside the state.
abbrev pub onward :
    {A B : Type 0}
    → Deserializer × Read A
    → (Deserializer → A → Deserializer × Read B)
    → Deserializer × Read B
onward (de, ok a) rest = rest de a
onward (de, err e) rest = (de, err e)
onward (de, panic) rest = (de, panic)

unfoldable pub take_usize : Deserializer → Deserializer × Read ℕ
unfolding sub deserialize_usize
take_usize de = onward (kept de (sub de size_stack)) (λ de' s. (de', deserialize_usize s))

unfoldable pub field_stack : Option ℕ → Deserializer → Deserializer × Read ℕ
unfolding take_usize
field_stack none de = take_usize de
field_stack (some max_stack) de = (de, ok max_stack)

module _ {T : Type 0} (f : Formula) (d : Deserialize T) where
  -- `read_value(false)`
  unfoldable pub take_value : Deserializer → Deserializer × Read T
  unfolding field_stack sub
  take_value de =
      onward (field_stack f.max_stack_size de)
        (λ de1 stack. onward (kept de1 (sub de1 stack)) (λ de2 s. (de2, d.deserialize s)))

  unfoldable pub read_back_value : Deserializer → Deserializer × Read T
  unfolding checked_sub new_unchecked
  read_back_value de = back (unwrap_size f.max_stack_size)
    where
      back : Read ℕ → Deserializer × Read T
      back (ok stack) =
          if ltb de.stack stack then (record de { stack = 0 }, err wrong_length) else (
            record de { stack = de.stack - stack },
            do
              below ← checked_sub (length de.input) de.stack
              s ← new_unchecked stack (take (below + stack) de.input)
              d.deserialize s,
          )
      back (err e) = (de, err e)
      back panic = (de, panic)

-- The loop over values of a formula with no maximum.
unfoldable pub skip_unsized : ℕ → Deserializer → Deserializer × Read Unit
unfolding take_usize read_bytes
skip_unsized zero de = (de, ok tt)
skip_unsized (suc n) de = onward (take_usize de) (λ de1 skip_bytes.
    onward (kept de1 (read_bytes de1 skip_bytes)) (λ de2 bytes. skip_unsized n de2))

unfoldable pub skip_by : Option ℕ → ℕ → Deserializer → Deserializer × Read Unit
unfolding skip_unsized read_bytes
skip_by none n de = skip_unsized n de
skip_by (some max_stack) n de =
    onward (kept de (read_bytes de (max_stack * n))) (λ de' bytes. (de', ok tt))

unfoldable pub skip_values : Formula → ℕ → Deserializer → Deserializer × Read Unit
unfolding skip_by
skip_values f zero de = (de, ok tt)
skip_values f (suc n) de = skip_by f.max_stack_size (suc n) de

pub record DeIter : Type 0 where
  pub de : Deserializer
  pub upper : ℕ

-- The number of items of a sized iterator; `panic!` for a formula that is not sized.
unfoldable pub sized_upper : Option ℕ → Deserializer → Read (Deserializer × ℕ)
sized_upper none de = panic
sized_upper (some zero) de = unwrap_or_zero de (read_usize de)
sized_upper (some (suc m)) de = ok (de, de.stack / suc m)

unfoldable pub into_sized_iter : Formula → Deserializer → Read DeIter
unfolding sized_upper
into_sized_iter f de = do
  (de', upper) ← sized_upper f.max_stack_size de
  assert (leb de'.stack (length de'.input))
  ok (record { de = de'; upper = upper })

unfoldable pub into_unsized_iter : Formula → Deserializer → Read DeIter
unfolding iter_upper
into_unsized_iter f de = do
  (de', upper) ← iter_upper f.max_stack_size de
  assert (leb de'.stack (length de'.input))
  ok (record { de = de'; upper = upper })

-- `F::MAX_STACK_SIZE.is_some()`
abbrev pub has_maximum : Option ℕ → Bool
has_maximum none = false
has_maximum (some m) = true

unfoldable pub into_unsized_array_iter : Deserializer → ℕ → Read DeIter
into_unsized_array_iter de len = do
  assert (leb de.stack (length de.input))
  ok (record { de = de; upper = len })

unfoldable pub into_sized_array_iter : Formula → Deserializer → ℕ → Read DeIter
into_sized_array_iter f de len = do
  assert (has_maximum f.max_stack_size)
  assert (leb de.stack (length de.input))
  ok (record { de = de; upper = len })

-- The lower and the upper bound.
unfoldable pub size_hint : Option ℕ → DeIter → ℕ × Option ℕ
size_hint none it = (if leb size_stack it.de.stack then 1 else 0, some it.upper)
size_hint (some max_stack) it = (it.upper, some it.upper)

unfoldable pub len : Option ℕ → DeIter → ℕ
unfolding size_hint
len m it = (size_hint m it).0

unfoldable pub is_empty : Formula → DeIter → Bool
unfolding stack_empty
is_empty f it = (it.upper == 0) || stack_empty f.max_stack_size it.de.stack

module _ {T : Type 0} (f : Formula) (d : Deserialize T) where
  abbrev item : DeIter → Deserializer × Read T → DeIter × Option (Read T)
  item it (de, value) = (record { de = de; upper = it.upper - 1 }, some value)

  unfoldable pub next : DeIter → DeIter × Option (Read T)
  unfolding is_empty take_value
  next it = if is_empty f it then (it, none) else item it (take_value f d it.de)

  unfoldable pub next_back : DeIter → DeIter × Option (Read T)
  unfolding is_empty read_back_value
  next_back it = if is_empty f it then (it, none) else item it (read_back_value f d it.de)

  unfoldable pub nth : ℕ → DeIter → DeIter × Option (Read T)
  unfolding skip_values next
  nth zero it = next it
  nth (suc n) it =
      if leb it.upper (suc n)
      then (record it { upper = 0 }, none)
      else skipped (skip_values f (suc n) it.de)
    where
      skipped : Deserializer × Read Unit → DeIter × Option (Read T)
      skipped (de, ok u) = next (record { de = de; upper = it.upper - suc n })
      skipped (de, err e) = (record { de = de; upper = 0 }, some (err e))
      skipped (de, panic) = (record { de = de; upper = it.upper }, some panic)

  unfoldable pub nth_back : ℕ → DeIter → DeIter × Option (Read T)
  unfolding next_back checked_sub
  nth_back zero it = next_back it
  nth_back (suc n) it =
      if leb it.upper (suc n)
      then (record it { upper = 0 }, none)
      else moved (do
        element_size ← unwrap_size f.max_stack_size
        checked_sub it.de.stack (suc n * element_size))
    where
      moved : Read ℕ → DeIter × Option (Read T)
      moved (ok stack) =
          next_back (record {
            de = record { input = it.de.input; stack = stack };
            upper = it.upper - suc n;
          })
      moved (err e) = (it, some (err e))
      moved panic = (it, some panic)
