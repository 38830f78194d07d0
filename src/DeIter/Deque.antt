-- ===== src/DeIter/Deque.antt =====
-- `into_sized_iter` and sequences of `nth` and `nth_back` of src/deserialize.rs, of which `next` and
-- `next_back` are those with 0, against a list that is taken from at both ends.
use alkahest.Prelude.{
  ℕ, zero, suc, ◌+◌, ◌*◌, ◌/◌, ◌≤◌, ◌<◌, ◌≡◌, refl, sym, ap, subst, ◌∙◌, ◌++◌, [], ◌∷◌, List, map,
  true, Option, none, some, ◌==◌, ◌⊎◌, inl, inr, length, drop, arith, le→leb, eq→==, length-append,
  append_assoc, reverse, reverse-cons, reverse-append, reverse-reverse,
}
use native.Mathlib.Nat.{mul-div_cancel}
use alkahest.Prelude.Words.{Bytes}
use alkahest.Outcome.{ok, ◌>>=◌}
use alkahest.Formula.{Formula}
use alkahest.Serialize.Wire.{WireFormat}
use alkahest.Deserialize.{Deserialize, Read}
use alkahest.Deserialize.Reads.{at_end}
use alkahest.Codec.{Codec, IsCodec}
use alkahest.Slice.Laws.{IsElements, ElementsWire}
use alkahest.DeIter.{DeIter, into_sized_iter, sized_upper, is_empty, next, next_back, nth, nth_back}
use alkahest.DeIter.Split.{even}
use alkahest.DeIter.Moves.{IsAt}
use alkahest.DeIter.Skips.{nth-ok, nth_back-ok}

pub data Move : Type 0 where
  forward backward : ℕ → Move

abbrev pub pop : {T : Type 0} → List T → Option T × List T
pop [] = (none, [])
pop (v ∷ vs) = (some v, vs)

abbrev pub from_back : {T : Type 0} → Option T × List T → Option T × List T
from_back (o, vs) = (o, reverse vs)

-- The item that a move takes of a list, and what it leaves.
abbrev pub taken : {T : Type 0} → Move → List T → Option T × List T
taken (forward n) vs = pop (drop n vs)
taken (backward n) vs = from_back (pop (drop n (reverse vs)))

abbrev pub items : {T : Type 0} → List Move → List T → List (Option T)
items [] vs = []
items (a ∷ moves) vs = (taken a vs).0 ∷ items moves (taken a vs).1

abbrev pub read_item : {T : Type 0} → Option T → Option (Read T)
read_item none = none
read_item (some v) = some (ok v)

module _ {T : Type 0} (f : Formula) (d : Deserialize T) where
  unfoldable pub move : Move → DeIter → DeIter × Option (Read T)
  unfolding nth nth_back
  move (forward n) it = nth f d n it
  move (backward n) it = nth_back f d n it

  unfoldable pub run : List Move → DeIter → List (Option (Read T))
  unfolding move
  run [] it = []
  run (a ∷ moves) it = (move a it).1 ∷ run moves (move a it).0

drop-cases :
    {T : Type 0} (n : ℕ) (vs : List T)
    → ((length vs ≤ n) × (drop n vs ≡ []))
      ⊎ ((xs : List T) × (v : T) × (ys : List T) × (length xs ≡ n)
          × (vs ≡ xs ++ (v ∷ ys))
          × (drop n vs ≡ v ∷ ys))
drop-cases zero [] = inl (omega arith, refl)
drop-cases zero (v ∷ vs) = inr ([], v, vs, refl, refl, refl)
drop-cases (suc n) [] = inl (omega arith, refl)
drop-cases (suc n) (v ∷ vs) = elim (drop-cases n vs) [
  | inl (h, e) ↦ inl (omega arith, e)
  | inr (xs, x, ys, l, e, e') ↦ inr (v ∷ xs, x, ys, ap suc l, ap (λ t. v ∷ t) e, e')
]

length-reverse : {T : Type 0} (vs : List T) → length (reverse vs) ≡ length vs
length-reverse [] = refl
length-reverse (v ∷ vs) =
    ap length (reverse-cons v vs)
    ∙ omega (arith, length-append (reverse vs) (v ∷ []), length-reverse vs)

-- Where the reverse of a list is cut, so is the list.
unreverse :
    {T : Type 0} (vs xs ys : List T) (v : T)
    → reverse vs ≡ xs ++ (v ∷ ys)
    → vs ≡ reverse ys ++ (v ∷ reverse xs)
unreverse vs xs ys v e =
    sym (reverse-reverse vs)
    ∙ ap reverse e
    ∙ reverse-append xs (v ∷ ys)
    ∙ ap (λ t. t ++ reverse xs) (reverse-cons v ys)
    ∙ append_assoc (reverse ys) (v ∷ []) (reverse xs)

module _ {T : Type 0} (c : Codec T) (w : WireFormat T) (laws : IsCodec c w) (m : ℕ)
    (em : c.formula.max_stack_size ≡ some (suc m)) where
  -- The items that remain: those of an image, or none, whatever the stack is.
  abbrev Remaining : DeIter → List T → Type 0
  Remaining it vs = IsAt c.formula w it vs ⊎ ((it.upper ≡ 0) × (vs ≡ []))

  upper_of : (it : DeIter) (vs : List T) → Remaining it vs → it.upper ≡ length vs
  upper_of it vs (inl (front, hb, mid, sb, pre, vals, q, e, ei)) = ap (λ i. i.upper) ei
  upper_of it vs (inr (e, ev)) = e ∙ sym (ap length ev)

  -- Where something remains, it is an image.
  image :
      (it : DeIter) (vs us : List T)
      → Remaining it vs
      → vs ≡ us
      → 0 < length us
      → IsAt c.formula w it us
  image it vs us (inl at) e h = subst (λ t. IsAt c.formula w it t) e at
  image it vs us (inr (u, ev)) e h = absurd (omega (arith, ap length (sym e ∙ ev)))

  past :
      (a : Move) (n : ℕ) (it : DeIter)
      → (a ≡ forward n) ⊎ (a ≡ backward n)
      → it.upper ≤ n
      → (it' : DeIter) × (move c.formula c.de a it ≡ (it', none)) × (it'.upper ≡ 0)
  unfolding move nth nth_back next next_back is_empty
  past a zero it way h =
      let stop : (it.upper == 0) ≡ true = eq→== it.upper 0 (omega arith) in
      (it, elim way [ inl e ↦ rw (e, stop) refl | inr e ↦ rw (e, stop) refl ], omega arith)
  past a (suc n) it way h =
      let stop = le→leb it.upper (suc n) h in
      (
        record it { upper = 0 },
        elim way [ inl e ↦ rw (e, stop) refl | inr e ↦ rw (e, stop) refl ],
        refl,
      )

  -- What a move from one list to the next does.
  abbrev Moved : Move → DeIter → Option T × List T → Type 0
  Moved a it (o, vs) =
      (it' : DeIter) × (move c.formula c.de a it ≡ (it', read_item o)) × Remaining it' vs

  Moved-past :
      (a : Move) (n : ℕ) (it : DeIter)
      → (a ≡ forward n) ⊎ (a ≡ backward n)
      → it.upper ≤ n
      → Moved a it (none, [])
  Moved-past a n it way h = let (it', r, u) = past a n it way h in (it', r, inr (u, refl))

  Moved-forward :
      (n : ℕ) (vs : List T) (it : DeIter) → Remaining it vs → Moved (forward n) it (pop (drop n vs))
  unfolding move
  Moved-forward n vs it at = elim (drop-cases n vs) [
    | inl (h, e) ↦
        subst (λ t. Moved (forward n) it (pop t)) (sym e)
          (Moved-past (forward n) n it (inl refl) (omega (arith, upper_of it vs at)))
    | inr (xs, v, ys, l, e, e') ↦
        subst (λ t. Moved (forward n) it (pop t)) (sym e')
          (let (it', r, at') =
              nth-ok c w laws m em n xs v ys it l
                (image it vs (xs ++ (v ∷ ys)) at e (omega (arith, length-append xs (v ∷ ys)))) in
            (it', r, inl at'))
  ]

  Moved-backward :
      (n : ℕ) (vs : List T) (it : DeIter)
      → Remaining it vs
      → Moved (backward n) it (from_back (pop (drop n (reverse vs))))
  unfolding move
  Moved-backward n vs it at = elim (drop-cases n (reverse vs)) [
    | inl (h, e) ↦
        subst (λ t. Moved (backward n) it (from_back (pop t))) (sym e)
          (Moved-past (backward n) n it (inr refl)
            (omega (arith, upper_of it vs at, length-reverse vs)))
    | inr (xs, v, ys, l, e, e') ↦
        subst (λ t. Moved (backward n) it (from_back (pop t))) (sym e')
          (let back = reverse ys ++ (v ∷ reverse xs) in
            let (it', r, at') =
              nth_back-ok c w laws m em n (reverse ys) v (reverse xs) it (length-reverse xs ∙ l) (
                image it vs back at (unreverse vs xs ys v e)
                  (omega (arith, length-append (reverse ys) (v ∷ reverse xs)))) in
            (it', r, inl at'))
  ]

  step : (a : Move) (vs : List T) (it : DeIter) → Remaining it vs → Moved a it (taken a vs)
  step (forward n) vs it at = Moved-forward n vs it at
  step (backward n) vs it at = Moved-backward n vs it at

  pub run-items :
      (moves : List Move) (vs : List T) (it : DeIter)
      → Remaining it vs
      → run c.formula c.de moves it ≡ map read_item (items moves vs)
  unfolding run
  run-items [] vs it at = refl
  run-items (a ∷ moves) vs it at =
      let (it', r, at') = step a vs it at in
      rw (r) (ap (λ t. read_item (taken a vs).0 ∷ t) (run-items moves (taken a vs).1 it' at'))

  sized_upper_lem :
      (vs : List T) (a : ℕ) (hb sb pre : Bytes)
      → ElementsWire c.formula w vs a hb sb
      → sized_upper c.formula.max_stack_size (at_end pre sb 0) ≡ ok (at_end pre sb 0, length vs)
  unfolding sized_upper
  sized_upper_lem vs a hb sb pre q =
      let l : 0 + length sb ≡ length vs * suc m =
        omega (arith, even c.formula w (suc m) vs a hb sb em q) in
      let upper : (0 + length sb) / suc m ≡ length vs =
        ap (λ n. n / suc m) l ∙ mul-div_cancel (length vs) (omega arith) in
      rw (em, upper) refl

  into_sized_iter_lem :
      (vs : List T) (a : ℕ) (hb sb pre : Bytes)
      → ElementsWire c.formula w vs a hb sb
      → into_sized_iter c.formula (at_end pre sb 0)
        ≡ ok (record { de = at_end pre sb 0; upper = length vs })
  unfolding into_sized_iter
  into_sized_iter_lem vs a hb sb pre q = rw (
    sized_upper_lem vs a hb sb pre q,
    le→leb (0 + length sb) (length (pre ++ sb)) (omega (arith, length-append pre sb)),
  )

  -- For a formula that keeps the contract `IsCodec` and whose maximum is above 0, and the image
  -- of a list: `into_sized_iter` succeeds, and every sequence of calls of `nth` and `nth_back`,
  -- which are `next` and `next_back` at 0, returns what is taken from the list at its front and
  -- at its back, and `None` past its end.
  pub into_sized_iter-run :
      (vs : List T) (front hb mid sb pre : Bytes) (moves : List Move)
      → IsElements c.formula w vs
      → ElementsWire c.formula w vs (length front) hb sb
      → pre ≡ front ++ (hb ++ mid)
      → (into_sized_iter c.formula (at_end pre sb 0) >>= λ it. ok (run c.formula c.de moves it))
        ≡ ok (map read_item (items moves vs))
  into_sized_iter-run vs front hb mid sb pre moves vals q e =
      ap (λ r. r >>= λ it. ok (run c.formula c.de moves it))
        (into_sized_iter_lem vs (length front) hb sb pre q)
      ∙ ap ok (
          run-items moves vs (record { de = at_end pre sb 0; upper = length vs })
            (inl (front, hb, mid, sb, pre, vals, q, e, refl)))
