-- ===== src/DeIter/Fold/Back.antt =====
-- `rfold` of src/deserialize.rs over the elements of a sized formula, against the loop over `next_back`.
use alkahest.Prelude.{
  ℕ, zero, suc, ◌+◌, ◌-◌, ◌*◌, ◌/◌, ◌≤◌, ◌≡◌, refl, sym, ap, ◌∙◌, true, false, ◌==◌, Option, none,
  some, length, take, length-take, arith,
}
use alkahest.Prelude.{le→leb, le→ltb_false}
use native.Mathlib.Nat.{mul-div_cancel}
use alkahest.Outcome.{ok, ◌>>=◌, checked_sub, sub_eq}
use alkahest.Formula.{Formula}
use alkahest.Slice.{stack_empty}
use alkahest.Deserialize.{Deserializer, DeserializeError, Deserialize, Read, new_unchecked}
use alkahest.Prelude.Words.{Bytes}
use alkahest.DeIter.{DeIter, next_back, is_empty, read_back_value}
use alkahest.DeIter.Fold.{called, rfold_sized, rfold, visited, rfold_by_next_back}
use alkahest.DeIter.Fold.Laws.{visited_item}

-- The bytes of an element that ends at `end`.
abbrev element : Bytes → ℕ → ℕ → Deserializer
element input end n = record { input = take end input; stack = n }

module _ {T A : Type 0} (f : Formula) (d : Deserialize T) (fun : A → Read T → A) (m : ℕ)
    (em : f.max_stack_size ≡ some (suc m)) where
  next_back_sized :
      (n stack start : ℕ) (input : Bytes)
      → length input ≡ start + (suc m + stack)
      → next_back f d
          (record { de = record { input = input; stack = suc m + stack }; upper = suc n })
        ≡ (
          record { de = record { input = input; stack = stack }; upper = n },
          some (d.deserialize (element input (start + suc m) (suc m))),
        )
  unfolding next_back is_empty read_back_value stack_empty new_unchecked
  next_back_sized n stack start input e =
      let some_left : (suc n == 0) ≡ false = ground arith in
      let left : suc m + stack - suc m ≡ stack = omega arith in
      let below : checked_sub {E = DeserializeError} (length input) (suc m + stack) ≡ ok start =
        sub_eq (length input) (suc m + stack) start (omega arith) in
      rw
        (
          some_left,
          em,
          le→ltb_false (suc m + stack) (suc m) (omega arith),
          left,
          below,
          le→leb (suc m) (length (take (start + suc m) input))
              (omega (arith, length-take (start + suc m) input)),
        )
        (ap
          (λ t. (
            record { de = record { input = input; stack = stack }; upper = t },
            some (d.deserialize (element input (start + suc m) (suc m))),
          ))
          (omega arith))

  next_back_zero :
      (de : Deserializer)
      → next_back f d (record { de = de; upper = 0 }) ≡ (record { de = de; upper = 0 }, none)
  unfolding next_back is_empty
  next_back_zero de = refl

  one_call :
      (calls : ℕ) (it it' : DeIter) (o : Option (Read T)) (init : A)
      → next_back f d it ≡ (it', o)
      → rfold_by_next_back f d fun (suc calls) it init
        ≡ visited f d fun init o (rfold_by_next_back f d fun calls it')
  unfolding rfold_by_next_back
  one_call calls it it' o init e =
      ap (λ q. visited f d fun init q.1 (rfold_by_next_back f d fun calls q.0)) e

  rfold_step :
      (n end : ℕ) (input : Bytes) (init : A)
      → end + suc m ≤ length input
      → rfold_sized f d fun (suc n) (suc m) input end init ≡ (
          called f d fun init (d.deserialize (element input (end + suc m) (suc m))) >>= λ a.
          rfold_sized f d fun n (suc m) input (end + suc m) a)
  unfolding rfold_sized new_unchecked
  rfold_step n end input init h = rw (
    le→leb (end + suc m) (length input) h,
    le→leb (suc m) (length (take (end + suc m) input))
        (omega (arith, length-take (end + suc m) input)),
  )

  items :
      (n start : ℕ) (input : Bytes) (init : A)
      → length input ≡ start + n * suc m
      → rfold_by_next_back f d fun
          (suc n)
          (record { de = record { input = input; stack = n * suc m }; upper = n })
          init
        ≡ some (rfold_sized f d fun n (suc m) input start init)
  unfolding rfold_sized
  items zero start input init e =
      let de : Deserializer = record { input = input; stack = 0 * suc m } in
      one_call 0 (record { de = de; upper = 0 }) (record { de = de; upper = 0 }) none init
        (next_back_zero de)
  items (suc n) start input init e =
      let more : suc n * suc m ≡ suc m + n * suc m = omega arith in
      let last = d.deserialize (element input (start + suc m) (suc m)) in
      rw more (
        one_call (suc n)
          (record { de = record { input = input; stack = suc m + n * suc m }; upper = suc n })
          (record { de = record { input = input; stack = n * suc m }; upper = n }) (some last) init
          (next_back_sized n (n * suc m) start input (omega arith)))
      ∙ visited_item f d fun m em last init
          (rfold_by_next_back f d fun (suc n)
            (record { de = record { input = input; stack = n * suc m }; upper = n }))
          (rfold_sized f d fun n (suc m) input (start + suc m))
          (λ a. items n (start + suc m) input a (omega arith))
      ∙ ap some (sym (rfold_step n start input init (omega arith)))

  -- For every formula with a maximum above 0, every `deserialize` of it, and an iterator whose
  -- stack is exactly that of its items and is within the input: the loop over `next_back` ends
  -- after at most one call more than there are items, and `rfold` calls the closure on the
  -- items that the loop calls it on, in the same order, and returns the same, panics of the
  -- items included.
  pub rfold-rfold_by_next_back :
      (n : ℕ) (input : Bytes) (init : A)
      → n * suc m ≤ length input
      → rfold_by_next_back f d fun
          (suc n)
          (record { de = record { input = input; stack = n * suc m }; upper = n })
          init
        ≡ some (
            rfold f d fun
              (record { de = record { input = input; stack = n * suc m }; upper = n })
              init)
  unfolding rfold
  rfold-rfold_by_next_back n input init h =
      let asserted : (n == n) ≡ true = ground arith in
      let count : n * suc m / suc m ≡ n = mul-div_cancel n (omega arith) in
      let start = length input - suc m * n in
      items n start input init (omega arith)
      ∙ ap some (rw (em, count, asserted, le→leb (suc m * n) (length input) (omega arith)))
