-- ===== src/Tests/Iterators.antt =====
-- The iterator over two bytes, and over one byte string.
use alkahest.Prelude.{◌≡◌, refl, some, none, arith, [], ◌∷◌}
use alkahest.Outcome.{ok, err, ◌>>=◌}
use alkahest.Prelude.Words.{to_le_bytes, from_le_bytes}
use alkahest.Formula.{size_stack}
use alkahest.Deserialize.{read_value, wrong_length}
use alkahest.Deserialize.Reads.{at_end}
use alkahest.Primitive.{int, int_deserialize, bytes}
use alkahest.Primitive.Laws.{int_wire, int-IsCodec}
use alkahest.DeIter.{into_sized_iter, nth}
use alkahest.DeIter.Loop.{deserialize_from_iter, deserialize_from_iter-collect}
use alkahest.Slice.{collect}
use alkahest.DeIter.Deque.{forward, backward, run, into_sized_iter-run}

into_sized_iter-run_example :
    (into_sized_iter (int 1).formula (at_end (9 ∷ []) (6 ∷ 5 ∷ []) 0) >>= λ it.
    ok (run (int 1).formula (int 1).de (backward 0 ∷ forward 0 ∷ forward 3 ∷ []) it))
    ≡ ok (some (ok 6) ∷ some (ok 5) ∷ none ∷ [])
unfolding to_le_bytes
into_sized_iter-run_example =
    into_sized_iter-run (int 1) (int_wire 1) (int-IsCodec 1) 0 refl (5 ∷ 6 ∷ []) (9 ∷ []) [] []
      (6 ∷ 5 ∷ []) (9 ∷ []) (backward 0 ∷ forward 0 ∷ forward 3 ∷ [])
      (omega arith, (omega arith, tt))
      (
        [],
        5 ∷ [],
        [],
        6 ∷ [],
        (refl, ([], 5 ∷ [], (refl, refl), refl, refl)),
        (
          [],
          6 ∷ [],
          [],
          [],
          (refl, ([], 6 ∷ [], (refl, refl), refl, refl)),
          (refl, refl),
          refl,
          refl,
        ),
        refl,
        refl,
      )
      refl

-- Elements of no maximum: past the end, where the bound of the iterator is not reached, `nth` returns
-- an error and not `None`.
nth-past_end :
    (nth bytes.formula bytes.de 2 (record {
      de = at_end [] (1 ∷ 2 ∷ 3 ∷ 4 ∷ 5 ∷ 6 ∷ 7 ∷ 8 ∷ 8 ∷ 0 ∷ 0 ∷ 0 ∷ []) 0;
      upper = 3;
    })).1
    ≡ some (err wrong_length)
unfolding nth size_stack from_le_bytes
nth-past_end = refl

deserialize_from_iter-collect_example :
    deserialize_from_iter
      (int 1).formula
      (int 1).de
      3
      (record { de = at_end (9 ∷ []) (6 ∷ 5 ∷ []) 0; upper = 2 })
    ≡ some (ok (5 ∷ 6 ∷ []))
unfolding collect read_value int_deserialize from_le_bytes
deserialize_from_iter-collect_example =
    deserialize_from_iter-collect (int 1).formula (int 1).de 2 (at_end (9 ∷ []) (6 ∷ 5 ∷ []) 0)
