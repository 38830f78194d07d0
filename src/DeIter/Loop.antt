-- ===== src/DeIter/Loop.antt =====
-- A loop over `next` of `DeIter`, as `for` runs it and as src/iter.rs collects a vector, against the
-- recursion that reads a slice in `Slice`.
use alkahest.Prelude.{
  ℕ, zero, suc, ◌≡◌, refl, ap, ◌∙◌, true, false, ◌==◌, Bool-cases, inl, inr, Option, none, some,
  List, [], ◌∷◌, arith,
}
use alkahest.Outcome.{ok, err, panic, ◌>>=◌}
use alkahest.Formula.{Formula}
use alkahest.Deserialize.{Deserializer, Deserialize, Read}
use alkahest.Slice.{collect, stack_empty}
use alkahest.DeIter.{DeIter, next, is_empty, take_value}
use alkahest.DeIter.Settled.{settled, take_value_lem}

abbrev keep : {T : Type 0} → T → Option (Read (List T)) → Option (Read (List T))
keep v none = none
keep v (some r) = some (r >>= λ vs. ok (v ∷ vs))

-- What the loop does with an item, and with what the rest of the loop returns.
abbrev pub collected :
    {T : Type 0} → Option (Read T) → Option (Read (List T)) → Option (Read (List T))
collected none rest = some (ok [])
collected (some (ok v)) rest = keep v rest
collected (some (err e)) rest = some (err e)
collected (some panic) rest = some panic

module _ {T : Type 0} (f : Formula) (d : Deserialize T) where
  -- The first argument bounds the calls of `next`; with none left, the loop has not ended.
  unfoldable pub deserialize_from_iter : ℕ → DeIter → Option (Read (List T))
  unfolding next
  deserialize_from_iter zero it = none
  deserialize_from_iter (suc calls) it =
      collected (next f d it).1 (deserialize_from_iter calls (next f d it).0)

  collected_item :
      (n : ℕ) (p : Deserializer × Read T)
      → ((de : Deserializer)
          → deserialize_from_iter (suc n) (record { de = de; upper = n }) ≡ some (collect f d n de))
      → collected (some p.1) (deserialize_from_iter (suc n) (record { de = p.0; upper = n }))
        ≡ some (settled p >>= λ (de, v). collect f d n de >>= λ vs. ok (v ∷ vs))
  collected_item n (de, ok v) rest = ap (keep v) (rest de)
  collected_item n (de, err e) rest = refl
  collected_item n (de, panic) rest = refl

  next_ended :
      (n : ℕ) (de : Deserializer)
      → stack_empty f.max_stack_size de.stack ≡ true
      → next f d (record { de = de; upper = suc n }) ≡ (record { de = de; upper = suc n }, none)
  unfolding next is_empty
  next_ended n de e = let some_left : (suc n == 0) ≡ false = ground arith in rw (some_left, e)

  next_item :
      (n : ℕ) (de : Deserializer)
      → stack_empty f.max_stack_size de.stack ≡ false
      → next f d (record { de = de; upper = suc n })
        ≡ (record { de = (take_value f d de).0; upper = n }, some (take_value f d de).1)
  unfolding next is_empty
  next_item n de e =
      let some_left : (suc n == 0) ≡ false = ground arith in
      rw (some_left, e)
        (ap (λ t. (record { de = (take_value f d de).0; upper = t }, some (take_value f d de).1))
          (omega arith))

  one_call :
      (calls : ℕ) (it it' : DeIter) (o : Option (Read T))
      → next f d it ≡ (it', o)
      → deserialize_from_iter (suc calls) it ≡ collected o (deserialize_from_iter calls it')
  unfolding deserialize_from_iter
  one_call calls it it' o e = ap (λ q. collected q.1 (deserialize_from_iter calls q.0)) e

  next_zero :
      (de : Deserializer)
      → next f d (record { de = de; upper = 0 }) ≡ (record { de = de; upper = 0 }, none)
  unfolding next is_empty
  next_zero de = refl

  -- For every formula, and every `deserialize` of it, on every iterator over elements:
  -- `deserialize_from_iter` of it into a vector ends after at most one call of `next` more than
  -- the iterator's bound, and returns what the recursion that reads a slice returns, errors and
  -- panics included.
  pub deserialize_from_iter-collect :
      (upper : ℕ) (de : Deserializer)
      → deserialize_from_iter (suc upper) (record { de = de; upper = upper })
        ≡ some (collect f d upper de)
  unfolding collect
  deserialize_from_iter-collect zero de =
      one_call 0 (record { de = de; upper = 0 }) (record { de = de; upper = 0 }) none (next_zero de)
  deserialize_from_iter-collect (suc n) de =
      elim (Bool-cases (stack_empty f.max_stack_size de.stack)) [
        | inl e ↦ rw e (
            one_call (suc n) (record { de = de; upper = suc n }) (record { de = de; upper = suc n })
              none (next_ended n de e))
        | inr e ↦
            let p = take_value f d de in
            rw e (
              one_call (suc n) (record { de = de; upper = suc n }) (record { de = p.0; upper = n })
                (some p.1) (next_item n de e)
              ∙ collected_item n p (deserialize_from_iter-collect n)
              ∙ ap (λ r. some (r >>= λ (de', v). collect f d n de' >>= λ vs. ok (v ∷ vs)))
                  (take_value_lem f d de))
      ]
