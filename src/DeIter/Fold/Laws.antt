-- ===== src/DeIter/Fold/Laws.antt =====
-- `fold` of src/deserialize.rs over the elements of a sized formula, against the loop over `next`.
use alkahest.Prelude.{
  ℕ, zero, suc, ◌-◌, ◌*◌, ◌/◌, ◌≤◌, ◌≡◌, refl, sym, ap, ◌∙◌, true, false, List, ◌==◌, Option, none,
  some, length, take, length-take, arith, subst,
}
use alkahest.Prelude.{le→leb, le→ltb_false}
use native.Mathlib.Nat.{div-mul-le_self}
use alkahest.Outcome.{ok, err, panic, ◌>>=◌, checked_sub}
use alkahest.Formula.{Formula}
use alkahest.Deserialize.{Deserializer, Deserialize, Read, new_unchecked, sub}
use alkahest.Slice.{stack_empty}
use alkahest.DeIter.{field_stack, DeIter, next, is_empty, take_value}
use alkahest.DeIter.Fold.{called, fold_sized, fold, visited, fold_by_next}

-- What `sub` leaves, and what it splits off.
abbrev rest_of : Deserializer → ℕ → Deserializer
rest_of de n = record { input = take (length de.input - n) de.input; stack = de.stack - n }

abbrev top_of : Deserializer → ℕ → Deserializer
top_of de n = record { input = de.input; stack = n }

module _ {T A : Type 0} (f : Formula) (d : Deserialize T) (fun : A → Read T → A) (m : ℕ)
    (em : f.max_stack_size ≡ some (suc m)) where
  next_sized :
      (n : ℕ) (de : Deserializer)
      → suc m ≤ de.stack
      → de.stack ≤ length de.input
      → next f d (record { de = de; upper = suc n })
        ≡ (record { de = rest_of de (suc m); upper = n }, some (d.deserialize (top_of de (suc m))))
  unfolding next is_empty take_value field_stack stack_empty sub new_unchecked checked_sub
  next_sized n de h within =
      let some_left : (suc n == 0) ≡ false = ground arith in
      rw
        (
          some_left,
          em,
          le→ltb_false de.stack (suc m) h,
          le→leb (suc m) (length de.input) (omega arith),
        )
        (ap
          (λ t. (
            record { de = rest_of de (suc m); upper = t },
            some (d.deserialize (top_of de (suc m))),
          ))
          (omega arith))

  next_zero :
      (de : Deserializer)
      → next f d (record { de = de; upper = 0 }) ≡ (record { de = de; upper = 0 }, none)
  unfolding next is_empty
  next_zero de = refl

  one_call :
      (calls : ℕ) (it it' : DeIter) (o : Option (Read T)) (init : A)
      → next f d it ≡ (it', o)
      → fold_by_next f d fun (suc calls) it init
        ≡ visited f d fun init o (fold_by_next f d fun calls it')
  unfolding fold_by_next
  one_call calls it it' o init e =
      ap (λ q. visited f d fun init q.1 (fold_by_next f d fun calls q.0)) e

  pub visited_item :
      (r : Read T) (init : A) (rest : A → Option (Read A)) (rest' : A → Read A)
      → ((a : A) → rest a ≡ some (rest' a))
      → visited f d fun init (some r) rest ≡ some (called f d fun init r >>= rest')
  visited_item (ok v) init rest rest' h = h (fun init (ok v))
  visited_item (err e) init rest rest' h = h (fun init (err e))
  visited_item panic init rest rest' h = refl

  fold_step :
      (n : ℕ) (input : List ℕ) (init : A)
      → suc m ≤ length input
      → fold_sized f d fun (suc n) (suc m) input init ≡ (
          called f d fun init (d.deserialize (record { input = input; stack = suc m })) >>= λ a.
          fold_sized f d fun n (suc m) (take (length input - suc m) input) a)
  unfolding fold_sized new_unchecked
  fold_step n input init h = rw (le→leb (suc m) (length input) h)

  items :
      (n : ℕ) (de : Deserializer) (init : A)
      → n * suc m ≤ de.stack
      → de.stack ≤ length de.input
      → fold_by_next f d fun (suc n) (record { de = de; upper = n }) init
        ≡ some (fold_sized f d fun n (suc m) de.input init)
  unfolding fold_sized
  items zero de init h within =
      one_call 0 (record { de = de; upper = 0 }) (record { de = de; upper = 0 }) none init
        (next_zero de)
  items (suc n) de init h within =
      let one : suc m ≤ de.stack = omega arith in
      one_call (suc n) (record { de = de; upper = suc n })
        (record { de = rest_of de (suc m); upper = n }) (some (d.deserialize (top_of de (suc m))))
        init (next_sized n de one within)
      ∙ visited_item (d.deserialize (top_of de (suc m))) init
          (fold_by_next f d fun (suc n) (record { de = rest_of de (suc m); upper = n }))
          (fold_sized f d fun n (suc m) (rest_of de (suc m)).input)
          (λ a.
            items n (rest_of de (suc m)) a (omega arith)
              (omega (arith, length-take (length de.input - suc m) de.input)))
      ∙ ap some (sym (fold_step n de.input init (omega arith)))

  -- For every formula with a maximum above 0, every `deserialize` of it, and an iterator with
  -- as many items as its stack has room for, the stack being within the input: the loop over
  -- `next` ends after at most one call more than there are items, and `fold` calls the closure
  -- on the items that the loop calls it on, in the same order, and returns the same, panics of
  -- the items included.
  pub fold-fold_by_next :
      (it : DeIter) (init : A)
      → it.de.stack / suc m ≡ it.upper
      → it.de.stack ≤ length it.de.input
      → fold_by_next f d fun (suc it.upper) it init ≡ some (fold f d fun it init)
  unfolding fold
  fold-fold_by_next it init e within =
      let asserted : (it.upper == it.upper) ≡ true = ground arith in
      let le : it.upper * suc m ≤ it.de.stack =
        subst (λ t. t * suc m ≤ it.de.stack) e (div-mul-le_self it.de.stack (suc m)) in
      items it.upper it.de init le within ∙ ap some (rw (em, e, asserted))
