-- ===== src/DeIter/Split.antt =====
-- The image of a list of elements, cut where one part of the list ends and the other begins.
use native.Mathlib.Nat.{suc-mul}
use alkahest.Prelude.{
  ℕ, ◌+◌, ◌*◌, ◌≡◌, refl, sym, ap, subst, ◌∙◌, ◌++◌, [], ◌∷◌, List, false, some, length, arith,
  length-append, append_assoc, append-nil,
}
use native.Mathlib.Nat.{suc-mul}
use alkahest.Prelude.Words.{Bytes}
use alkahest.Formula.{Formula}
use alkahest.Serialize.Wire.{WireFormat}
use alkahest.Serialize.Wire.Field.{field, field_len}
use alkahest.Slice.Laws.{IsElements, ElementsWire}

module _ {T : Type 0} (f : Formula) (w : WireFormat T) where
  pub IsElements-append :
      (xs ys : List T) → IsElements f w (xs ++ ys) → IsElements f w xs × IsElements f w ys
  IsElements-append [] ys q = (tt, q)
  IsElements-append (x ∷ xs) ys (q, qs) = let (a, b) = IsElements-append xs ys qs in ((q, a), b)

  -- The second part stands above the first on the heap, and below it on the stack.
  pub split_wire :
      (xs ys : List T) (a : ℕ) (hb sb : Bytes)
      → ElementsWire f w (xs ++ ys) a hb sb
      → (h1 : Bytes) × (s1 : Bytes) × (h2 : Bytes) × (s2 : Bytes) × ElementsWire f w xs a h1 s1
        × ElementsWire f w ys (a + length h1) h2 s2
        × (hb ≡ h1 ++ h2)
        × (sb ≡ s2 ++ s1)
  split_wire [] ys a hb sb q = (
    [],
    [],
    hb,
    sb,
    (refl, refl),
    subst (λ n. ElementsWire f w ys n hb sb) (omega arith) q,
    refl,
    sym (append-nil sb),
  )
  split_wire (x ∷ xs) ys a hb sb (ha, sa, hr, sr, q, qr, eh, es) =
      let (h1, s1, h2, s2, q1, q2, eh', es') = split_wire xs ys (a + length ha) hr sr qr in
      (
        ha ++ h1,
        s1 ++ sa,
        h2,
        s2,
        (ha, sa, h1, s1, q, q1, refl, refl),
        subst (λ n. ElementsWire f w ys n h2 s2) (omega (arith, length-append ha h1)) q2,
        eh ∙ ap (λ t. ha ++ t) eh' ∙ sym (append_assoc ha h1 h2),
        es ∙ ap (λ t. t ++ sa) es' ∙ append_assoc s2 s1 sa,
      )

  -- Elements of a sized formula are evenly spaced.
  pub even :
      (m : ℕ) (vs : List T) (a : ℕ) (hb sb : Bytes)
      → f.max_stack_size ≡ some m
      → ElementsWire f w vs a hb sb
      → length sb ≡ length vs * m
  even m [] a hb sb e q = omega (arith, ap length q.1)
  even m (v ∷ vs) a hb sb e (ha, sa, hr, sr, q, qr, eh, es) =
      let ls = ((field f false w).lengths v a ha sa q).1 in
      omega (
        arith,
        ap length es,
        length-append sr sa,
        even m vs (a + length ha) hr sr e qr,
        ls,
        ap (λ t. field_len t false (w.stack_len v)) e,
        suc-mul (length vs) m,
      )
