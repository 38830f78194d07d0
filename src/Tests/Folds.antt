-- ===== src/Tests/Folds.antt =====
-- `fold` and `rfold` of the iterator over two bytes, and `fold` of the one over a byte string.
use alkahest.Prelude.{ℕ, ◌+◌, ◌≡◌, refl, some, arith, List, [], ◌∷◌}
use alkahest.Prelude.Words.{from_le_bytes}
use alkahest.Formula.{size_stack}
use alkahest.Outcome.{ok, err, panic}
use alkahest.Deserialize.{Read, read_bytes, read_value, read_all_bytes}
use alkahest.Deserialize.Reads.{at_end}
use alkahest.Primitive.{int, int_deserialize, bytes}
use alkahest.Slice.{collect}
use alkahest.DeIter.{DeIter, next, next_back}
use alkahest.DeIter.Fold.{fold, rfold, fold_by_next, rfold_by_next_back}
use alkahest.DeIter.Fold.Laws.{fold-fold_by_next}
use alkahest.DeIter.Fold.Back.{rfold-rfold_by_next_back}

abbrev pushed : List ℕ → Read ℕ → List ℕ
pushed acc (ok v) = v ∷ acc
pushed acc (err e) = acc
pushed acc panic = acc

abbrev two : DeIter
two = record { de = at_end (9 ∷ []) (6 ∷ 5 ∷ []) 0; upper = 2 }

fold-fold_by_next_example :
    fold_by_next (int 1).formula (int 1).de pushed 3 two [] ≡ some (ok (6 ∷ 5 ∷ []))
unfolding fold int_deserialize from_le_bytes
fold-fold_by_next_example =
    fold-fold_by_next (int 1).formula (int 1).de pushed 0 refl two [] refl (omega arith)

rfold-rfold_by_next_back_example :
    rfold_by_next_back (int 1).formula (int 1).de pushed 3 two [] ≡ some (ok (5 ∷ 6 ∷ []))
unfolding rfold int_deserialize read_bytes from_le_bytes
rfold-rfold_by_next_back_example =
    rfold-rfold_by_next_back (int 1).formula (int 1).de pushed 0 refl 2 (9 ∷ 6 ∷ 5 ∷ []) []
      (omega arith)

-- The image of a slice of one byte string, which a vector is read from.
collect_bytes :
    collect bytes.formula bytes.de 2
      (at_end [] (1 ∷ 2 ∷ 3 ∷ 4 ∷ 5 ∷ 6 ∷ 7 ∷ 8 ∷ 8 ∷ 0 ∷ 0 ∷ 0 ∷ []) 0)
    ≡ ok ((1 ∷ 2 ∷ 3 ∷ 4 ∷ 5 ∷ 6 ∷ 7 ∷ 8 ∷ []) ∷ [])
unfolding collect read_value read_all_bytes size_stack from_le_bytes
collect_bytes = refl

-- `fold` over the same image, as `count` calls it: its stack goes below zero.
fold_bytes :
    fold bytes.formula bytes.de
      (λ acc item. acc + 1)
      (record { de = at_end [] (1 ∷ 2 ∷ 3 ∷ 4 ∷ 5 ∷ 6 ∷ 7 ∷ 8 ∷ 8 ∷ 0 ∷ 0 ∷ 0 ∷ []) 0; upper = 3 })
      0
    ≡ panic
unfolding fold size_stack from_le_bytes
fold_bytes = refl

-- A stack of three bytes for integers of two: the first item and the last one, of one item in all.
abbrev uneven : DeIter
uneven = record { de = at_end [] (1 ∷ 2 ∷ 3 ∷ []) 0; upper = 1 }

next-uneven : (next (int 2).formula (int 2).de uneven).1 ≡ some (ok 770)
unfolding next int_deserialize read_bytes from_le_bytes
next-uneven = refl

next_back-uneven : (next_back (int 2).formula (int 2).de uneven).1 ≡ some (ok 513)
unfolding next_back int_deserialize read_bytes from_le_bytes
next_back-uneven = refl
