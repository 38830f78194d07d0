-- ===== src/DeIter/Fold.antt =====
-- `fold`, `rfold` and `count` of `DeIter` in src/deserialize.rs, which walk the input without `next`,
-- and the loop over `next` that `fold` stands for.
pub mod Laws
pub mod Back
use alkahest.Prelude.{
  ℕ, zero, suc, ◌+◌, ◌*◌, ◌/◌, ◌==◌, leb, ltb, Option, none, some, if◌then◌else◌, length, take,
}
use alkahest.Prelude.Words.{Bytes}
use alkahest.Outcome.{ok, err, panic, ◌>>=◌, ◌>>◌, assert, checked_sub}
use alkahest.Formula.{Formula, size_stack}
use alkahest.Deserialize.{
  Deserializer, Deserialize, Read, new_unchecked, deserialize_usize, unwrap_size,
}
use alkahest.DeIter.{DeIter, next, next_back}

module _ {T A : Type 0} (f : Formula) (d : Deserialize T) (fun : A → Read T → A) where
  -- A call of the closure; an item that panics does not reach it.
  abbrev pub called : A → Read T → Read A
  called init (ok v) = ok (fun init (ok v))
  called init (err e) = ok (fun init (err e))
  called init panic = panic

  -- `for _ in 0..self.upper` over elements of no bytes
  unfoldable pub fold_empty : ℕ → Deserializer → A → Read A
  fold_empty zero s init = ok init
  fold_empty (suc n) s init = called init (d.deserialize s) >>= fold_empty n s

  unfoldable pub fold_sized : ℕ → ℕ → Bytes → A → Read A
  unfolding new_unchecked checked_sub
  fold_sized zero stack input init = ok init
  fold_sized (suc n) stack input init = do
    s ← new_unchecked stack input
    below ← checked_sub (length input) stack
    init' ← called init (d.deserialize s)
    fold_sized n stack (take below input) init'

  -- `return f(init, cold_err(err))` where the size of an element cannot be read
  abbrev sized_by : A → Read ℕ → (ℕ → Read A) → Read A
  sized_by init (ok stack) rest = rest stack
  sized_by init (err e) rest = ok (fun init (err e))
  sized_by init panic rest = panic

  -- The first argument is the length of the input, of which every round takes off some bytes; with
  -- none left, a stack that is not empty reaches beyond the input.
  unfoldable pub fold_unsized : ℕ → Deserializer → A → Read A
  unfolding new_unchecked checked_sub deserialize_usize
  fold_unsized zero de init = if ltb de.stack size_stack then ok init else panic
  fold_unsized (suc n) de init = if ltb de.stack size_stack then ok init else (do
    s ← new_unchecked size_stack de.input
    below ← checked_sub (length de.input) size_stack
    sized_by init (deserialize_usize s) (λ stack. do
      s' ← new_unchecked stack (take below de.input)
      below' ← checked_sub (length (take below de.input)) stack
      stack' ← checked_sub de.stack (size_stack * stack)
      init' ← called init (d.deserialize s')
      fold_unsized n (record { input = take below' (take below de.input); stack = stack' }) init'))

  unfoldable pub fold_at : Option ℕ → DeIter → A → Read A
  unfolding fold_empty fold_sized fold_unsized new_unchecked
  fold_at none it init = fold_unsized (length it.de.input) it.de init
  fold_at (some zero) it init = new_unchecked 0 it.de.input >>= λ s. fold_empty it.upper s init
  fold_at (some (suc m)) it init = do
    assert (it.de.stack / suc m == it.upper)
    fold_sized it.upper (suc m) it.de.input init

  unfoldable pub fold : DeIter → A → Read A
  unfolding fold_at
  fold it init = fold_at f.max_stack_size it init

  -- The items of a sized iterator from the back: `end` is where the one before ends.
  unfoldable pub rfold_sized : ℕ → ℕ → Bytes → ℕ → A → Read A
  unfolding new_unchecked
  rfold_sized zero stack input end init = ok init
  rfold_sized (suc n) stack input end init = do
    assert (leb (end + stack) (length input))
    s ← new_unchecked stack (take (end + stack) input)
    init' ← called init (d.deserialize s)
    rfold_sized n stack input (end + stack) init'

  unfoldable pub rfold_at : ℕ → DeIter → A → Read A
  unfolding fold_empty rfold_sized new_unchecked checked_sub
  rfold_at zero it init = new_unchecked 0 it.de.input >>= λ s. fold_empty it.upper s init
  rfold_at (suc m) it init = do
    assert (it.de.stack / suc m == it.upper)
    end ← checked_sub (length it.de.input) (suc m * it.upper)
    rfold_sized it.upper (suc m) it.de.input end init

  unfoldable pub rfold : DeIter → A → Read A
  unfolding rfold_at
  rfold it init = unwrap_size f.max_stack_size >>= λ stack. rfold_at stack it init

-- `Iterator::fold` of the standard library, which `DeIter` replaces by its own: `next` until it returns
-- `None`. The first argument bounds the calls of `next`; with none left, the loop has not ended.
module _ {T A : Type 0} (f : Formula) (d : Deserialize T) (fun : A → Read T → A) where
  abbrev pub visited : A → Option (Read T) → (A → Option (Read A)) → Option (Read A)
  visited init none rest = some (ok init)
  visited init (some (ok v)) rest = rest (fun init (ok v))
  visited init (some (err e)) rest = rest (fun init (err e))
  visited init (some panic) rest = some panic

  unfoldable pub fold_by_next : ℕ → DeIter → A → Option (Read A)
  unfolding next
  fold_by_next zero it init = none
  fold_by_next (suc calls) it init =
      visited init (next f d it).1 (λ init'. fold_by_next calls (next f d it).0 init')

  -- `DoubleEndedIterator::rfold` of the standard library
  unfoldable pub rfold_by_next_back : ℕ → DeIter → A → Option (Read A)
  unfolding next_back
  rfold_by_next_back zero it init = none
  rfold_by_next_back (suc calls) it init =
      visited init (next_back f d it).1
        (λ init'. rfold_by_next_back calls (next_back f d it).0 init')

module _ {T : Type 0} (f : Formula) (d : Deserialize T) where
  unfoldable count_at : Option ℕ → DeIter → Read ℕ
  unfolding fold
  count_at none it = fold f d (λ acc item. acc + 1) it 0
  count_at (some max_stack) it = ok it.upper

  unfoldable pub count : DeIter → Read ℕ
  unfolding count_at
  count it = count_at f.max_stack_size it
