-- ===== src/Slice/Writer.antt =====
-- `SliceWriter` of src/serialize.rs, which writes the elements of a slice as they come, against
-- `write_slice`, which is given them all.
use alkahest.Prelude.{
  ℕ, zero, suc, ◌+◌, ◌≡◌, refl, sym, ap, ◌∙◌, true, false, Bool-cases, inl, inr, Option, none, some,
  List, [], ◌∷◌, arith,
}
use alkahest.Outcome.{ok, err, panic, ◌>>=◌, ◌>>◌, assert}
use alkahest.Formula.{Formula}
use alkahest.Sizes.{Sizes}
use alkahest.Buffer.{Buffer, Write}
use alkahest.Serialize.{Serialize, serialize, write_field, unreachable_err}
use alkahest.Primitive.{usize}
use alkahest.Slice.{write_slice, write_slice_at, write_array, count_checked}

pub record SliceWriter : Type 0 where
  pub buffer : Buffer
  pub sizes : Sizes
  pub count : ℕ

abbrev pub slice_writer : Sizes → Buffer → SliceWriter
slice_writer sizes buffer = record { buffer = buffer; sizes = sizes; count = 0 }

module _ {T : Type 0} (f : Formula) (s : Serialize T) where
  abbrev stepped : SliceWriter → Sizes × Buffer → SliceWriter
  stepped writer (sizes, buffer) = record writer { buffer = buffer; sizes = sizes }

  unfoldable pub write_elem_at : Option ℕ → T → SliceWriter → Write SliceWriter
  write_elem_at none value writer = do
    r ← write_field f s value writer.sizes writer.buffer false
    ok (stepped writer r)
  write_elem_at (some (suc m)) value writer = do
    r ← write_field f s value writer.sizes writer.buffer false
    ok (stepped writer r)
  write_elem_at (some zero) value writer = do
    assert f.heapless
    _ ← unreachable_err (serialize f s value [])
    ok (record writer { count = writer.count + 1 })

  unfoldable pub write_elem : T → SliceWriter → Write SliceWriter
  unfolding write_elem_at
  write_elem value writer = write_elem_at f.max_stack_size value writer

  unfoldable pub finish_at : Option ℕ → SliceWriter → Write (Sizes × Buffer)
  finish_at none writer = ok (writer.sizes, writer.buffer)
  finish_at (some (suc m)) writer = ok (writer.sizes, writer.buffer)
  finish_at (some zero) writer = do
    assert f.heapless
    write_field usize.formula usize.ser writer.count writer.sizes writer.buffer true

  unfoldable pub finish : SliceWriter → Write (Sizes × Buffer)
  unfolding finish_at
  finish writer = finish_at f.max_stack_size writer

  -- `write_elem` for each, and then `finish`.
  unfoldable pub write_elems : List T → SliceWriter → Write (Sizes × Buffer)
  unfolding write_elem finish
  write_elems [] writer = finish writer
  write_elems (v ∷ vs) writer = do writer' ← write_elem v writer; write_elems vs writer'

  -- The same with the maximum as an argument.
  unfoldable write_elems_at : Option ℕ → List T → SliceWriter → Write (Sizes × Buffer)
  unfolding write_elem_at finish_at
  write_elems_at m [] writer = finish_at m writer
  write_elems_at m (v ∷ vs) writer = do
    writer' ← write_elem_at m v writer
    write_elems_at m vs writer'

  one_by_one :
      (r : Write (Sizes × Buffer)) (writer : SliceWriter)
      (rest : SliceWriter → Write (Sizes × Buffer))
      (rest' : Sizes → Buffer → Write (Sizes × Buffer))
      → ((z : Sizes) (b : Buffer) → rest (stepped writer (z, b)) ≡ rest' z b)
      → (r >>= (λ q. ok (stepped writer q)) >>= rest) ≡ (r >>= λ (z, b). rest' z b)
  one_by_one (ok (z, b)) writer rest rest' h = h z b
  one_by_one (err e) writer rest rest' h = refl
  one_by_one panic writer rest rest' h = refl

  array-elems :
      (m : ℕ) (vs : List T) (writer : SliceWriter)
      → (write_elems_at none vs writer ≡ write_array f s vs writer.sizes writer.buffer)
        × (write_elems_at (some (suc m)) vs writer ≡ write_array f s vs writer.sizes writer.buffer)
  unfolding write_elems_at write_array
  array-elems m [] writer = (refl, refl)
  array-elems m (v ∷ vs) writer =
      let r = write_field f s v writer.sizes writer.buffer false in
      (
        one_by_one r writer (write_elems_at none vs) (λ z b. write_array f s vs z b)
            (λ z b. (array-elems m vs (stepped writer (z, b))).0),
        one_by_one r writer (write_elems_at (some (suc m)) vs) (λ z b. write_array f s vs z b)
            (λ z b. (array-elems m vs (stepped writer (z, b))).1),
      )

  one_more :
      {R Q : Type 0} (r : Write R) (c : Write ℕ) (writer : SliceWriter)
      (rest : SliceWriter → Write Q) (g : ℕ → Write Q) (k : ℕ)
      → rest writer ≡ (c >>= λ n. g (k + 1 + n))
      → (r >>= (λ x. ok writer) >>= rest) ≡ ((r >>= λ x. c >>= λ n. ok (n + 1)) >>= λ n. g (k + n))
  one_more (ok x) (ok n) writer rest g k e = e ∙ ap g (omega arith)
  one_more (ok x) (err y) writer rest g k e = e
  one_more (ok x) panic writer rest g k e = e
  one_more (err y) c writer rest g k e = refl
  one_more panic c writer rest g k e = refl

  -- The elements that take no bytes are counted.
  counted :
      (h : f.heapless ≡ true) (vs : List T) (writer : SliceWriter)
      → write_elems_at (some zero) vs writer ≡ (
          count_checked f s vs >>= λ n.
          write_field usize.formula usize.ser (writer.count + n) writer.sizes writer.buffer true)
  unfolding write_elems_at count_checked
  counted h [] writer = rw h (
      ap (λ n. write_field usize.formula usize.ser n writer.sizes writer.buffer true) (omega arith))
  counted h (v ∷ vs) writer =
      let next : SliceWriter = record writer { count = writer.count + 1 } in
      ap
        (λ t.
          (assert t >> (unreachable_err (serialize f s v []) >>= λ x. ok next))
          >>= write_elems_at (some zero) vs)
        h
      ∙ (one_more (unreachable_err (serialize f s v [])) (count_checked f s vs) next
          (write_elems_at (some zero) vs)
          (λ n. write_field usize.formula usize.ser n writer.sizes writer.buffer true) writer.count
          (counted h vs next))

  refused :
      (h : f.heapless ≡ false) (vs : List T) (writer : SliceWriter)
      → write_elems_at (some zero) vs writer ≡ panic
  unfolding write_elems_at
  refused h [] writer = rw h refl
  refused h (v ∷ vs) writer = rw h refl

  count_from : {Q : Type 0} (c : Write ℕ) (g : ℕ → Write Q) → (c >>= g) ≡ (c >>= λ n. g (0 + n))
  count_from (ok n) g = ap g (omega arith)
  count_from (err e) g = refl
  count_from panic g = refl

  -- `write_slice` after `slice_writer`, for any maximum.
  written :
      (m : Option ℕ) (vs : List T) (z : Sizes) (b : Buffer)
      → write_elems_at m vs (slice_writer z b) ≡ write_slice_at f m s vs z b
  unfolding write_slice_at
  written none vs z b = (array-elems zero vs (slice_writer z b)).0
  written (some (suc m)) vs z b = (array-elems m vs (slice_writer z b)).1
  written (some zero) vs z b = elim (Bool-cases f.heapless) [
    | inl h ↦
        counted h vs (slice_writer z b)
        ∙ sym (
            ap
              (λ t.
                assert t
                >> (count_checked f s vs >>= λ n. write_field usize.formula usize.ser n z b true))
              h
            ∙ count_from (count_checked f s vs)
                (λ n. write_field usize.formula usize.ser n z b true))
    | inr h ↦ refused h vs (slice_writer z b) ∙ sym (rw h refl)
  ]

  bind_ext :
      (r : Write SliceWriter) (g h : SliceWriter → Write (Sizes × Buffer))
      → ((writer : SliceWriter) → g writer ≡ h writer)
      → (r >>= g) ≡ (r >>= h)
  bind_ext (ok writer) g h e = e writer
  bind_ext (err x) g h e = refl
  bind_ext panic g h e = refl

  at_max :
      (vs : List T) (writer : SliceWriter)
      → write_elems vs writer ≡ write_elems_at f.max_stack_size vs writer
  unfolding write_elems write_elems_at
  at_max [] writer = refl
  at_max (v ∷ vs) writer =
      bind_ext (write_elem_at f.max_stack_size v writer) (write_elems vs)
        (write_elems_at f.max_stack_size vs) (at_max vs)

  -- For every formula, and every `serialize` of it, errors and panics included: `write_elem`
  -- for each value of a list and then `finish` writes what `write_slice` of the list writes,
  -- and returns what it returns.
  pub write_elems-write_slice :
      (vs : List T) (z : Sizes) (b : Buffer)
      → write_elems vs (slice_writer z b) ≡ write_slice f s vs z b
  unfolding write_slice
  write_elems-write_slice vs z b = at_max vs (slice_writer z b) ∙ written f.max_stack_size vs z b
