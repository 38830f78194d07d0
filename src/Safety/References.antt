-- ===== src/Safety/References.antt =====
-- `read_reference` and `Deserializer::deref` of src/deserialize.rs on any bytes: the `unwrap`s and the
-- `unreachable!` of the first are not reached.
use alkahest.Prelude.{
  ℕ, ◌-◌, ◌*◌, ◌≤◌, ◌≡◌, refl, true, false, some, length, take, drop, le→leb, arith, length-take,
  length-drop, Bool, Option, if◌then◌else◌, min,
}
use alkahest.Prelude.Words.{Bytes, from_le_bytes}
use alkahest.Outcome.{ok, sub_lem, ◌>>=◌}
use alkahest.Formula.{Formula, size_stack, reference_size}
use alkahest.Deserialize.{
  Deserializer, Read, deserialize_usize, read_usize, read_usize_pair, read_reference, deref,
  expect_ok, unwrap_size,
}
use alkahest.Deserialize.References.{new_lem}
use alkahest.Safety.{Returns, Returns-bind, Returns-ltb, IsSound}
use alkahest.Safety.Methods.{
  split, part, split-Left, part-IsSound, sub_splits, read_bytes_splits, new-Returns,
}

-- The steps of a reader that has been given enough stack do not fail.
module _ (de : Deserializer) (s : IsSound de) where
  deserialize_usize_ok : size_stack ≤ de.stack → (v : ℕ) × (deserialize_usize de ≡ ok v)
  unfolding deserialize_usize
  deserialize_usize_ok h = (
    from_le_bytes (drop (length de.input - size_stack) de.input),
    rw (read_bytes_splits de size_stack s h),
  )

read_usize_ok :
    (de : Deserializer)
    → IsSound de
    → size_stack ≤ de.stack
    → (v : ℕ) × (read_usize de ≡ ok (split de size_stack, v))
unfolding read_usize
read_usize_ok de s h =
    let (v, e) =
      deserialize_usize_ok (part de size_stack) (part-IsSound de size_stack s h) (omega arith) in
    (v, rw (sub_splits de size_stack s h, e))

read_usize_pair_ok :
    (de : Deserializer)
    → IsSound de
    → size_stack * 2 ≤ de.stack
    → (a : ℕ) × (b : ℕ) × (read_usize_pair de ≡ ok (a, b))
unfolding read_usize_pair
read_usize_pair_ok de s h =
    let pair = part de (size_stack * 2) in
    let s1 = part-IsSound de (size_stack * 2) s h in
    let enough : size_stack ≤ pair.stack = omega arith in
    let (s2, e2) = split-Left pair size_stack s1 enough in
    let rest = split pair size_stack in
    let enough' : size_stack ≤ rest.stack = omega arith in
    let (a, ea) =
      deserialize_usize_ok (part pair size_stack) (part-IsSound pair size_stack s1 enough)
        (omega arith) in
    let (b, eb) =
      deserialize_usize_ok (part rest size_stack) (part-IsSound rest size_stack s2 enough')
        (omega arith) in
    (
      a,
      b,
      rw (
        sub_splits de (size_stack * 2) s h,
        sub_splits pair size_stack s1 enough,
        ea,
        sub_splits rest size_stack s2 enough',
        eb,
      ),
    )

reference_size_exact : (f : Formula) → f.exact_size ≡ true → reference_size f ≡ size_stack
unfolding reference_size
reference_size_exact f x = rw x

reference_size_pair : (f : Formula) → f.exact_size ≡ false → reference_size f ≡ size_stack * 2
unfolding reference_size
reference_size_pair f x = rw x

-- Where both readers of the fields succeed, so does the rest.
fields-Returns :
    (x : Bool) (m : Option ℕ) (len : ℕ) (one : Read (Deserializer × ℕ)) (two : Read (ℕ × ℕ))
    → (x ≡ true → (r : Deserializer × ℕ) × (one ≡ ok r))
    → (x ≡ true → (n : ℕ) × (m ≡ some n))
    → (x ≡ false → (r : ℕ × ℕ) × (two ≡ ok r))
    → Returns {A = ℕ × ℕ}
        (λ r. Unit)
        (if x
          then (do
            (_, address) ← expect_ok one
            max_stack ← unwrap_size m
            ok (address, min max_stack len))
          else (do (size, address) ← expect_ok two; ok (address, size)))
fields-Returns true m len one two p q r =
    let (v, e) = p refl in let (n, en) = q refl in rw (e, en) tt
fields-Returns false m len one two p q r = let (v, e) = r refl in rw e tt

module _ (f : Formula) (sized : f.exact_size ≡ true → (m : ℕ) × (f.max_stack_size ≡ some m)) where
  pub read_reference-Returns :
      (input : Bytes) (len : ℕ)
      → reference_size f ≤ length input
      → Returns (λ r. Unit) (read_reference f input len)
  unfolding read_reference
  read_reference-Returns input len h =
      let n : ℕ = reference_size f in
      let l : length (take n input) ≡ n = omega (arith, length-take n input) in
      let opened : Deserializer = record { input = take n input; stack = n } in
      let s : IsSound opened = record { within = omega arith } in
      rw (le→leb n (length input) h, new_lem n (take n input) (omega arith))
        (fields-Returns f.exact_size f.max_stack_size len (read_usize opened)
          (read_usize_pair opened)
          (λ x.
            let (v, e) = read_usize_ok opened s (omega (arith, reference_size_exact f x)) in
            ((split opened size_stack, v), e))
          sized
          (λ x.
            let (a, b, e) = read_usize_pair_ok opened s (omega (arith, reference_size_pair f x)) in
            ((a, b), e)))

  pub deref-Returns : (de : Deserializer) → IsSound de → Returns IsSound (deref f de)
  unfolding deref
  deref-Returns de s =
      let n : ℕ = reference_size f in
      let w = s.within in
      Returns-ltb IsSound de.stack n _ _ (λ h. tt)
        (λ h.
          let at : ℕ = length de.input - n in
          rw (sub_lem (length de.input) n (omega arith)) (
            Returns-bind (λ r. Unit) IsSound
              (read_reference f (drop at de.input) (length (take at de.input))) _
              (read_reference-Returns (drop at de.input) (length (take at de.input))
                (omega (arith, length-drop at de.input)))
              (λ (address, size) u.
                Returns-ltb IsSound (length (take at de.input)) address _ _ (λ h. tt)
                  (λ h. new-Returns size (take address (take at de.input))))))
