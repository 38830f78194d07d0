-- ===== src/DeIter/Moves.antt =====
-- `next`, `next_back`, `nth` and `nth_back` of `DeIter` in src/deserialize.rs, on the image of a list
-- of elements of a sized formula.
use native.Mathlib.Nat.{suc-mul}
use alkahest.Prelude.{
  ℕ, suc, ◌+◌, ◌-◌, ◌<◌, ◌≡◌, refl, sym, ap, subst, ◌∙◌, ◌++◌, [], ◌∷◌, List, false, some, ◌==◌,
  length, arith, le→ltb_false, length-append, append_assoc, append-nil, take-append,
}
use alkahest.Prelude.Words.{Bytes}
use alkahest.Outcome.{ok, sub_eq}
use alkahest.Formula.{Formula}
use alkahest.Serialize.Wire.{WireFormat}
use alkahest.Serialize.Wire.Field.{field, field_len, FieldWire}
use alkahest.Deserialize.Reads.{at_end, new_unchecked_lem, peel}
use alkahest.Deserialize.Fields.{read_value-field, padded}
use alkahest.Codec.{Codec, IsCodec}
use alkahest.Slice.Laws.{IsElements, ElementsWire}
use alkahest.DeIter.{DeIter, take_value, read_back_value, is_empty, next, next_back}
use alkahest.Slice.{stack_empty}
use alkahest.DeIter.Settled.{success, take_value_lem}
use alkahest.DeIter.Split.{IsElements-append, split_wire, even}

-- The iterator stands at the image of the list, and nothing else is left on the stack.
abbrev pub IsAt : {T : Type 0} → Formula → WireFormat T → DeIter → List T → Type 0
IsAt f w it vs =
    (front : Bytes) × (hb : Bytes) × (mid : Bytes) × (sb : Bytes) × (pre : Bytes) × IsElements f w
      vs
    × ElementsWire f w vs (length front) hb sb
    × (pre ≡ front ++ (hb ++ mid))
    × (it ≡ record { de = at_end pre sb 0; upper = length vs })

module _ {T : Type 0} (c : Codec T) (w : WireFormat T) (laws : IsCodec c w) (m : ℕ)
    (em : c.formula.max_stack_size ≡ some (suc m)) where
  filled :
      (vs : List T) (front hb sb pre : Bytes)
      → 0 < length vs
      → ElementsWire c.formula w vs (length front) hb sb
      → is_empty c.formula (record { de = at_end pre sb 0; upper = length vs }) ≡ false
  unfolding is_empty stack_empty
  filled [] front hb sb pre h q = absurd (omega arith)
  filled (v ∷ vs) front hb sb pre h q =
      let l = even c.formula w (suc m) (v ∷ vs) (length front) hb sb em q in
      let s = suc-mul (length vs) (suc m) in
      let some_left : (suc (length vs) == 0) ≡ false = ground arith in
      rw (some_left, em) (le→ltb_false (0 + length sb) (suc m) (omega arith))

  pub next-ok :
      (v : T) (vs : List T) (it : DeIter)
      → IsAt c.formula w it (v ∷ vs)
      → (it' : DeIter) × (next c.formula c.de it ≡ (it', some (ok v))) × IsAt c.formula w it' vs
  unfolding next
  next-ok v vs it (front, hb, mid, sb, pre, (val, vals), (ha, sa, hr, sr, q, qr, eh, es), e, ei) =
      let (regroup, first, second) = peel front ha hr mid sa sr hb sb pre 0 eh es e in
      let read : take_value c.formula c.de (at_end pre sb 0) ≡ (at_end pre sr 0, ok v) =
        ap (take_value c.formula c.de) regroup
        ∙ success (take_value c.formula c.de (at_end (pre ++ sr) sa (0 + length sr)))
            (at_end pre sr 0) v
            (take_value_lem c.formula c.de (at_end (pre ++ sr) sa (0 + length sr))
              ∙ read_value-field c.formula c.de w laws.reader v front ha ((hr ++ mid) ++ sr) sa
                  (pre ++ sr) (0 + length sr) val q.1 first) in
      (
        record { de = at_end pre sr 0; upper = length vs },
        rw (ei, filled (v ∷ vs) front hb sb pre (omega arith) (ha, sa, hr, sr, q, qr, eh, es), read)
            (ap (λ n. (record { de = at_end pre sr 0; upper = n }, some (ok v))) (omega arith)),
        (
          front ++ ha,
          hr,
          mid,
          sr,
          pre,
          vals,
          subst (λ n. ElementsWire c.formula w vs n hr sr) (sym (length-append front ha)) qr,
          second,
          refl,
        ),
      )

  -- `read_back_value` of the element whose image the stack begins with.
  back :
      (v : T) (front hb mid sa rest pre : Bytes)
      → w.IsValue v
      → (field c.formula false w).Wire v (length front) hb sa
      → pre ≡ front ++ (hb ++ mid)
      → read_back_value c.formula c.de (at_end pre (sa ++ rest) 0)
        ≡ (at_end (pre ++ sa) rest 0, ok v)
  unfolding read_back_value
  back v front hb mid sa rest pre val q e =
      let l : length sa ≡ suc m =
        ((field c.formula false w).lengths v (length front) hb sa q).1
        ∙ ap (λ t. field_len t false (w.stack_len v)) em in
      let lr = length-append sa rest in
      let lp = length-append pre (sa ++ rest) in
      let ls = length-append pre sa in
      let value : c.de.deserialize (record { input = pre ++ sa; stack = suc m }) ≡ ok v =
        ap (λ n. c.de.deserialize (record { input = pre ++ sa; stack = n })) (sym l ∙ omega arith)
        ∙ padded c.formula c.de w laws.reader (suc m) v front hb mid sa pre em val
            (subst (λ t. FieldWire t false (w.Wire v (length front) hb) sa) em q.1) e in
      let left : 0 + length (sa ++ rest) - suc m ≡ 0 + length rest = omega arith in
      rw
        (
          em,
          le→ltb_false (0 + length (sa ++ rest)) (suc m) (omega arith),
          sub_eq (length (pre ++ (sa ++ rest))) (0 + length (sa ++ rest)) (length pre)
              (omega arith),
          ← append_assoc pre sa rest,
          take-append (length pre + suc m) (pre ++ sa) rest (omega arith),
          new_unchecked_lem (suc m) (pre ++ sa) (omega arith),
          value,
          left,
        )
        refl

  pub next_back-ok :
      (vs : List T) (v : T) (it : DeIter)
      → IsAt c.formula w it (vs ++ (v ∷ []))
      → (it' : DeIter) × (next_back c.formula c.de it ≡ (it', some (ok v)))
        × IsAt c.formula w it' vs
  unfolding next_back
  next_back-ok vs v it (front, hb, mid, sb, pre, vals, q, e, ei) =
      let (h1, s1, h2, s2, q1, q2, eh, es) =
        split_wire c.formula w vs (v ∷ []) (length front) hb sb q in
      let (vals1, (val, u)) = IsElements-append c.formula w vs (v ∷ []) vals in
      let (ha, sa, hr, sr, qa, (er, er'), eh', es') = q2 in
      let count = length-append vs (v ∷ []) in
      let one : s2 ≡ sa = es' ∙ ap (λ t. t ++ sa) er' in
      let heap : hb ≡ h1 ++ ha =
        eh ∙ ap (λ t. h1 ++ t) (eh' ∙ ap (λ t. ha ++ t) er ∙ append-nil ha) in
      let stack : sb ≡ sa ++ s1 = es ∙ ap (λ t. t ++ s1) one in
      let below : pre ≡ (front ++ h1) ++ (ha ++ mid) =
        rw (e, heap, append_assoc h1 ha mid, append_assoc front h1 (ha ++ mid)) in
      let rest : pre ++ sa ≡ front ++ (h1 ++ ((ha ++ mid) ++ sa)) = rw (
        below,
        append_assoc (front ++ h1) (ha ++ mid) sa,
        append_assoc front h1 ((ha ++ mid) ++ sa),
      ) in
      (
        record { de = at_end (pre ++ sa) s1 0; upper = length vs },
        rw
            (
              ei,
              filled (vs ++ (v ∷ [])) front hb sb pre (omega arith) q,
              stack,
              back v (front ++ h1) ha mid sa s1 pre val
                  (subst (λ n. (field c.formula false w).Wire v n ha sa)
                    (sym (length-append front h1)) qa)
                  below,
            )
            (ap (λ n. (record { de = at_end (pre ++ sa) s1 0; upper = n }, some (ok v)))
              (omega arith)),
        (front, h1, (ha ++ mid) ++ sa, s1, pre ++ sa, vals1, q1, rest, refl),
      )
