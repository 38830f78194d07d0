-- ===== src/DeIter/Skips.antt =====
-- `nth` and `nth_back` of `DeIter` in src/deserialize.rs, on the image of a list of elements of a
-- sized formula.
use alkahest.Prelude.{
  ℕ, zero, suc, ◌+◌, ◌-◌, ◌*◌, ◌≡◌, refl, sym, ap, subst, ◌∙◌, ◌++◌, [], ◌∷◌, List, some, length,
  arith, lt→leb_false, length-append, append_assoc, nil_of_length,
}
use native.Mathlib.Nat.{mul_comm}
use alkahest.Outcome.{ok, ◌>>=◌, checked_sub, sub_eq}
use alkahest.Serialize.Wire.{WireFormat}
use alkahest.Deserialize.{Deserializer, read_bytes, unwrap_size}
use alkahest.Deserialize.Reads.{at_end, read_bytes-at_end}
use alkahest.Codec.{Codec, IsCodec}
use alkahest.Slice.Laws.{ElementsWire}
use alkahest.DeIter.{DeIter, skip_values, nth, nth_back}
use alkahest.DeIter.Split.{IsElements-append, split_wire, even}
use alkahest.DeIter.Moves.{IsAt, next-ok, next_back-ok}

module _ {T : Type 0} (c : Codec T) (w : WireFormat T) (laws : IsCodec c w) (m : ℕ)
    (em : c.formula.max_stack_size ≡ some (suc m)) where
  -- Without its first elements, or without its last ones.
  skip_front :
      (n : ℕ) (xs ys : List T) (it : DeIter)
      → length xs ≡ suc n
      → IsAt c.formula w it (xs ++ ys)
      → (de : Deserializer) × (skip_values c.formula (suc n) it.de ≡ (de, ok tt))
        × IsAt c.formula w (record { de = de; upper = it.upper - suc n }) ys
  unfolding skip_values
  skip_front n xs ys it len (front, hb, mid, sb, pre, vals, q, e, ei) =
      let (h1, s1, h2, s2, q1, q2, eh, es) = split_wire c.formula w xs ys (length front) hb sb q in
      let (vals1, vals2) = IsElements-append c.formula w xs ys vals in
      let l : suc m * suc n ≡ length s1 =
        mul_comm (suc m) (suc n)
        ∙ ap (λ t. t * suc m) (sym len)
        ∙ sym (even c.formula w (suc m) xs (length front) h1 s1 em q1) in
      let regroup : at_end pre sb 0 ≡ at_end (pre ++ s2) s1 (0 + length s2) =
        rw (es, ← append_assoc pre s2 s1)
          (ap (λ t. record { input = (pre ++ s2) ++ s1; stack = t })
            (omega (arith, length-append s2 s1))) in
      let read : read_bytes (at_end pre sb 0) (suc m * suc n) ≡ ok (at_end pre s2 0, s1) =
        ap (λ de. read_bytes de (suc m * suc n)) regroup
        ∙ read_bytes-at_end (pre ++ s2) s1 (0 + length s2) (suc m * suc n) l in
      (
        at_end pre s2 0,
        rw (ei, em, read) refl,
        (
          front ++ h1,
          h2,
          mid,
          s2,
          pre,
          vals2,
          subst (λ t. ElementsWire c.formula w ys t h2 s2) (sym (length-append front h1)) q2,
          e
              ∙ ap (λ t. front ++ (t ++ mid)) eh
              ∙ ap (λ t. front ++ t) (append_assoc h1 h2 mid)
              ∙ sym (append_assoc front h1 (h2 ++ mid)),
          ap (λ t. record { de = at_end pre s2 0; upper = t })
              (ap (λ i. i.upper - suc n) ei ∙ omega (arith, length-append xs ys)),
        ),
      )

  skip_back :
      (n : ℕ) (ys xs : List T) (it : DeIter)
      → length xs ≡ suc n
      → IsAt c.formula w it (ys ++ xs)
      → (stack : ℕ) × (it.de.stack ≡ suc n * suc m + stack)
        × IsAt c.formula w
            (record {
              de = record { input = it.de.input; stack = stack };
              upper = it.upper - suc n;
            })
            ys
  skip_back n ys xs it len (front, hb, mid, sb, pre, vals, q, e, ei) =
      let (h1, s1, h2, s2, q1, q2, eh, es) = split_wire c.formula w ys xs (length front) hb sb q in
      let (vals1, vals2) = IsElements-append c.formula w ys xs vals in
      let l : length s2 ≡ suc n * suc m =
        even c.formula w (suc m) xs (length front + length h1) h2 s2 em q2
        ∙ ap (λ t. t * suc m) len in
      (
        0 + length s1,
        ap (λ i. i.de.stack) ei ∙ omega (arith, ap length es, length-append s2 s1),
        (
          front,
          h1,
          (h2 ++ mid) ++ s2,
          s1,
          pre ++ s2,
          vals1,
          q1,
          ap (λ t. t ++ s2)
                (e
                  ∙ ap (λ t. front ++ (t ++ mid)) eh
                  ∙ ap (λ t. front ++ t) (append_assoc h1 h2 mid))
              ∙ append_assoc front (h1 ++ (h2 ++ mid)) s2
              ∙ ap (λ t. front ++ t) (append_assoc h1 (h2 ++ mid) s2),
          ap
                (λ t. record {
                  de = record { input = t; stack = 0 + length s1 };
                  upper = it.upper - suc n;
                })
                (ap (λ i. i.de.input) ei ∙ ap (λ t. pre ++ t) es ∙ sym (append_assoc pre s2 s1))
              ∙ ap (λ t. record { de = at_end (pre ++ s2) s1 0; upper = t })
                  (ap (λ i. i.upper - suc n) ei ∙ omega (arith, length-append ys xs)),
        ),
      )

  upper_of : (it : DeIter) (vs : List T) → IsAt c.formula w it vs → it.upper ≡ length vs
  upper_of it vs (front, hb, mid, sb, pre, vals, q, e, ei) = ap (λ i. i.upper) ei

  pub nth-ok :
      (n : ℕ) (xs : List T) (v : T) (vs : List T) (it : DeIter)
      → length xs ≡ n
      → IsAt c.formula w it (xs ++ (v ∷ vs))
      → (it' : DeIter) × (nth c.formula c.de n it ≡ (it', some (ok v))) × IsAt c.formula w it' vs
  unfolding nth
  nth-ok zero xs v vs it len at =
      next-ok c w laws m em v vs it
        (subst (λ t. IsAt c.formula w it (t ++ (v ∷ vs))) (nil_of_length xs len) at)
  nth-ok (suc n) xs v vs it len at =
      let (de, r, at') = skip_front n xs (v ∷ vs) it len at in
      let (it', r', at'') =
        next-ok c w laws m em v vs (record { de = de; upper = it.upper - suc n }) at' in
      (
        it',
        rw
            (
              lt→leb_false it.upper (suc n)
                  (omega (arith, upper_of it (xs ++ (v ∷ vs)) at, length-append xs (v ∷ vs))),
              r,
            )
            r',
        at'',
      )

  pub nth_back-ok :
      (n : ℕ) (vs : List T) (v : T) (xs : List T) (it : DeIter)
      → length xs ≡ n
      → IsAt c.formula w it (vs ++ (v ∷ xs))
      → (it' : DeIter) × (nth_back c.formula c.de n it ≡ (it', some (ok v)))
        × IsAt c.formula w it' vs
  unfolding nth_back
  nth_back-ok zero vs v xs it len at =
      next_back-ok c w laws m em vs v it
        (subst (λ t. IsAt c.formula w it (vs ++ (v ∷ t))) (nil_of_length xs len) at)
  nth_back-ok (suc n) vs v xs it len at =
      let at0 : IsAt c.formula w it ((vs ++ (v ∷ [])) ++ xs) =
        subst (λ t. IsAt c.formula w it t) (sym (append_assoc vs (v ∷ []) xs)) at in
      let (stack, es, at') = skip_back n (vs ++ (v ∷ [])) xs it len at0 in
      let moved : (unwrap_size c.formula.max_stack_size >>= λ size.
      checked_sub it.de.stack (suc n * size))
          ≡ ok stack =
        ap (λ o. unwrap_size o >>= λ size. checked_sub it.de.stack (suc n * size)) em
        ∙ sub_eq it.de.stack (suc n * suc m) stack es in
      let (it', r', at'') =
        next_back-ok c w laws m em vs v
          (record { de = record { input = it.de.input; stack = stack }; upper = it.upper - suc n })
          at' in
      (
        it',
        rw
            (
              lt→leb_false it.upper (suc n)
                  (omega (arith, upper_of it (vs ++ (v ∷ xs)) at, length-append vs (v ∷ xs))),
              moved,
            )
            r',
        at'',
      )
