-- ===== src/Safety/Formulas.antt =====
-- `deserialize` of src/primitive.rs, src/bytes.rs, src/str.rs, src/tuple.rs, src/option.rs,
-- src/reference.rs, src/slice.rs and src/array.rs on any input.
use alkahest.Prelude.{
  ℕ, zero, suc, ◌+◌, ◌*◌, ◌≡◌, refl, ap, ◌∙◌, Bool, true, false, Option, none, some, ◌==◌, length,
  le→leb, arith, Bool-cases, inl, inr,
}
use alkahest.Prelude.Words.{Bytes}
use alkahest.Outcome.{ok, err, panic}
use alkahest.Formula.{size_stack, reference_size, sum_size, repeat_size}
use alkahest.Deserialize.{
  Deserializer, Read, read_bytes, read_byte, read_all_bytes, read_usize, read_value, deref,
}
use alkahest.Codec.{Codec}
use alkahest.Primitive.{
  int, int_deserialize, bool, bool_deserialize, usize, bytes, str, str_deserialize,
}
use alkahest.Tuple.{empty, tuple_last, tuple_cons, last_deserialize, cons_deserialize}
use alkahest.Tuple.Laws.{and_left, and_right}
use alkahest.Optional.{option, option_deserialize, option_variant}
use alkahest.Reference.{ref, ref_deserialize, is_empty_stack}
use alkahest.Slice.{slice, slice_deserialize, collect, iter_upper, stack_empty, unwrap_or_zero}
use alkahest.Array.{array, array_deserialize}
use alkahest.Safety.{Returns, Returns-bind, Returns-map, IsSound, IsSafe}
use alkahest.Safety.Methods.{
  Left, Shrunk, read_bytes-Returns, read_byte-Returns, read_all_bytes-Returns,
  deserialize_usize-Returns, read_usize-Returns, read_value-Returns,
}
use alkahest.Safety.References.{deref-Returns}

-- `IsSafe` of the two halves of an implementation.
abbrev pub Safe : {T : Type 0} → Codec T → Type 0
Safe c = IsSafe c.formula c.de

pub int-Safe : (w : ℕ) → Safe (int w)
unfolding int_deserialize
int-Safe w = record {
  sized = λ e. (w, refl);
  returns = λ de s.
      Returns-bind _ _ (read_bytes de w) _ (read_bytes-Returns de w s) (λ (de', input) p. tt);
}

pub usize-Safe : Safe usize
usize-Safe = record { sized = λ e. (size_stack, refl); returns = deserialize_usize-Returns }

pub bool-Safe : Safe bool
unfolding bool_deserialize
bool-Safe = record {
  sized = λ e. (1, refl);
  returns =
      λ de s. Returns-bind _ _ (read_byte de) _ (read_byte-Returns de s) (λ (de', byte) p. tt);
}

pub bytes-Safe : Safe bytes
bytes-Safe = record {
  sized = λ e. absurd (cc e);
  returns = λ de s. Returns-map _ _ (read_all_bytes de) (read_all_bytes-Returns de s) (λ v p. tt);
}

pub str-Safe : (is_utf8 : Bytes → Bool) → Safe (str is_utf8)
unfolding str_deserialize
str-Safe is_utf8 = record {
  sized = λ e. absurd (cc e);
  returns = λ de s.
      Returns-bind _ _ (read_all_bytes de) _ (read_all_bytes-Returns de s)
        (λ v p. elim (Bool-cases (is_utf8 v)) [ inl e ↦ rw e tt | inr e ↦ rw e tt ]);
}

pub empty-Safe : Safe empty
empty-Safe = record { sized = λ e. (0, refl); returns = λ de s. tt }

module _ {A : Type 0} (c : Codec A) (safe : Safe c) where
  pub tuple_last-Safe : Safe (tuple_last c)
  unfolding last_deserialize
  tuple_last-Safe = record {
    sized = λ e. let (m, em) = safe.sized e in (0 + m, ap (sum_size (some 0)) em);
    returns = λ de s.
        Returns-bind _ _ (read_value c.formula c.de de true) _
          (read_value-Returns c.formula c.de safe de true s) (λ (de', v) p. tt);
  }

  pub tuple_cons-Safe : {R : Type 0} (rest : Codec R) → Safe rest → Safe (tuple_cons c rest)
  unfolding cons_deserialize
  tuple_cons-Safe rest safe' = record {
    sized = λ e.
        let (m, em) = safe.sized (and_left c.formula.exact_size rest.formula.exact_size e) in
        let (n, en) = safe'.sized (and_right c.formula.exact_size rest.formula.exact_size e) in
        (m + n, ap (λ t. sum_size t rest.formula.max_stack_size) em ∙ ap (sum_size (some m)) en);
    returns = λ de s.
        Returns-bind _ _ (read_value c.formula c.de de false) _
          (read_value-Returns c.formula c.de safe de false s)
          (λ (de', v) p.
            Returns-bind (λ v. Unit) _ (rest.de.deserialize de') _ (safe'.returns de' p.0)
              (λ others u. tt));
  }

  pub option-Safe : Safe (option c)
  unfolding option_deserialize
  option-Safe = record {
    sized = λ e. exact c.formula.max_stack_size e;
    returns = λ de s.
        Returns-bind _ _ (read_byte de) _ (read_byte-Returns de s)
          (λ (de', tag) p. variant (tag == 0) de' p.0);
  }
    where
      exact : (m : Option ℕ) → is_empty_stack m ≡ true → (n : ℕ) × (sum_size (some 1) m ≡ some n)
      exact none e = absurd (cc e)
      exact (some m) e = (1 + m, refl)

      variant :
          (t : Bool) (de : Deserializer)
          → IsSound de
          → Returns (λ v. Unit) (option_variant c.formula c.de t de)
      variant true de s = tt
      variant false de s =
          Returns-bind _ _ (read_value c.formula c.de de true) _
            (read_value-Returns c.formula c.de safe de true s) (λ (de', v) p. tt)

  pub ref-Safe : Safe (ref c)
  unfolding ref_deserialize
  ref-Safe = record {
    sized = λ e. (reference_size c.formula, refl);
    returns = λ de s.
        Returns-bind IsSound _ (deref c.formula de) _ (deref-Returns c.formula safe.sized de s)
          safe.returns;
  }

  iter_upper-Returns :
      (m : Option ℕ) (de : Deserializer)
      → IsSound de
      → Returns (λ (de', n). Shrunk de de') (iter_upper m de)
  unfolding iter_upper
  iter_upper-Returns none de s = (s, omega arith)
  iter_upper-Returns (some zero) de s = or_zero (read_usize de) (read_usize-Returns de s)
    where
      or_zero :
          (r : Read (Deserializer × ℕ))
          → Returns (λ (de', v). Left de size_stack de') r
          → Returns (λ (de', n). Shrunk de de') (unwrap_or_zero de r)
      or_zero (ok r) (sound, e) = (sound, omega arith)
      or_zero (err e) p = (s, omega arith)
      or_zero panic p = absurd p
  iter_upper-Returns (some (suc m)) de s = (s, omega arith)

  collect-Returns :
      (n : ℕ) (de : Deserializer) → IsSound de → Returns (λ v. Unit) (collect c.formula c.de n de)
  unfolding collect
  collect-Returns zero de s = tt
  collect-Returns (suc n) de s = elim (Bool-cases (stack_empty c.formula.max_stack_size de.stack)) [
    | inl e ↦ rw e tt
    | inr e ↦ rw e (
        Returns-bind _ _ (read_value c.formula c.de de false) _
          (read_value-Returns c.formula c.de safe de false s)
          (λ (de', v) p.
            Returns-bind (λ v. Unit) _ (collect c.formula c.de n de') _ (collect-Returns n de' p.0)
              (λ vs u. tt)))
  ]

  pub slice-Safe : Safe (slice c)
  unfolding slice_deserialize
  slice-Safe = record {
    sized = λ e. absurd (cc e);
    returns = λ de s.
        Returns-bind _ _ (iter_upper c.formula.max_stack_size de) _
          (iter_upper-Returns c.formula.max_stack_size de s)
          (λ (de', n) p.
            rw (le→leb de'.stack (length de'.input) p.0.within) (collect-Returns n de' p.0));
  }

  array_deserialize-Returns :
      (n : ℕ) (de : Deserializer)
      → IsSound de
      → Returns (λ v. Unit) (array_deserialize c.formula c.de n de)
  unfolding array_deserialize
  array_deserialize-Returns zero de s = tt
  array_deserialize-Returns (suc n) de s =
      Returns-bind _ _ (read_value c.formula c.de de false) _
        (read_value-Returns c.formula c.de safe de false s)
        (λ (de', v) p.
          Returns-bind (λ v. Unit) _ (array_deserialize c.formula c.de n de') _
            (array_deserialize-Returns n de' p.0) (λ vs u. tt))

  pub array-Safe : (n : ℕ) → Safe (array n c)
  array-Safe n = record {
    sized = λ e. let (m, em) = safe.sized e in (m * n, ap (λ t. repeat_size t n) em);
    returns = array_deserialize-Returns n;
  }
