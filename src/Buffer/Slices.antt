-- ===== src/Buffer/Slices.antt =====
-- The slice operations on a slice that holds a heap and a stack.
use alkahest.Prelude.{
  ℕ, ◌+◌, ◌-◌, ◌≤◌, ◌<◌, ◌≡◌, sym, ap, ◌∙◌, ◌++◌, [], length, take, drop, replicate, arith,
  append_assoc, append-nil, length-append, length-replicate, take-append, drop-append, split_last,
  split_first, le→leb, take_all,
}
use alkahest.Prelude.Words.{Bytes}
use alkahest.Outcome.{ok, sub_lem}
use alkahest.Buffer.{
  copy_from_slice, copy_within, resize, write_before_stack, move_in_slice, slice_to, do_reserve,
}
use alkahest.Buffer.Holds.{Laid}

copy_from_slice_lem :
    (at : ℕ) (bytes X M Y : Bytes)
    → at ≡ length X
    → length M ≡ length bytes
    → copy_from_slice at bytes (X ++ (M ++ Y)) ≡ ok (X ++ (bytes ++ Y))
unfolding copy_from_slice
copy_from_slice_lem at bytes X M Y hx hm = rw (
  le→leb (at + length bytes) (length (X ++ (M ++ Y)))
      (omega (arith, length-append X (M ++ Y), length-append M Y)),
  take-append at X (M ++ Y) hx,
  ← append_assoc X M Y,
  drop-append (at + length bytes) (X ++ M) Y (omega (arith, length-append X M)),
)

copy_within_lem :
    (start end dest : ℕ) (buf A M B X Y Z : Bytes)
    → buf ≡ A ++ (M ++ B)
    → buf ≡ X ++ (Y ++ Z)
    → start ≡ length A
    → end ≡ length A + length M
    → dest ≡ length X
    → length Y ≡ length M
    → copy_within start end dest buf ≡ ok (X ++ (M ++ Z))
unfolding copy_within
copy_within_lem start end dest buf A M B X Y Z ea ex hs he hd hy =
    rw
      (
        le→leb start end (omega arith),
        le→leb end (length buf) (omega (arith, lenA)),
        le→leb (dest + (end - start)) (length buf) (omega (arith, lenX)),
      )
      (ap ok (
        ap (λ t. take dest buf ++ (t ++ drop (dest + (end - start)) buf)) middle
        ∙ ap (λ t. t ++ (M ++ drop (dest + (end - start)) buf)) front
        ∙ ap (λ t. X ++ (M ++ t)) back))
  where
    lenA : length buf ≡ length A + (length M + length B)
    lenA = ap length ea ∙ length-append A (M ++ B) ∙ ap (λ t. length A + t) (length-append M B)

    lenX : length buf ≡ length X + (length Y + length Z)
    lenX = ap length ex ∙ length-append X (Y ++ Z) ∙ ap (λ t. length X + t) (length-append Y Z)

    middle : take (end - start) (drop start buf) ≡ M
    middle =
        ap (λ t. take (end - start) (drop start t)) ea
        ∙ ap (take (end - start)) (drop-append start A (M ++ B) hs)
        ∙ take-append (end - start) M B (omega arith)

    front : take dest buf ≡ X
    front = ap (take dest) ex ∙ take-append dest X (Y ++ Z) hd

    back : drop (dest + (end - start)) buf ≡ Z
    back =
        ap (drop (dest + (end - start))) (ex ∙ sym (append_assoc X Y Z))
        ∙ drop-append (dest + (end - start)) (X ++ Y) Z (omega (arith, length-append X Y))

-- Writing before the stack fills the end of the gap.
pub write_before_stack_lem :
    (buf H G S bytes : Bytes) (stack : ℕ)
    → buf ≡ H ++ (G ++ S)
    → stack ≡ length S
    → length bytes ≤ length G
    → (buf' : Bytes) × (write_before_stack buf stack bytes ≡ ok buf')
      × Laid buf' H (bytes ++ S)
      × (length buf' ≡ length buf)
unfolding write_before_stack
write_before_stack_lem buf H G S bytes stack e hs hb =
    let (G', M, eg, hm) = split_last (length bytes) G hb in
    let whole : buf ≡ (H ++ G') ++ (M ++ S) =
      e
      ∙ ap (λ t. H ++ (t ++ S)) eg
      ∙ ap (λ t. H ++ t) (append_assoc G' M S)
      ∙ sym (append_assoc H G' (M ++ S)) in
    let len : length buf ≡ length H + (length G' + (length M + length S)) =
      ap length whole
      ∙ omega (arith, length-append (H ++ G') (M ++ S), length-append H G', length-append M S) in
    (
      (H ++ G') ++ (bytes ++ S),
      rw
          (
            sub_lem (length buf) stack (omega arith),
            sub_lem (length buf - stack) (length bytes) (omega arith),
          )
          (ap (copy_from_slice (length buf - stack - length bytes) bytes) whole
            ∙ copy_from_slice_lem (length buf - stack - length bytes) bytes (H ++ G') M S
                (omega (arith, length-append H G')) hm),
      (G', append_assoc H G' (bytes ++ S)),
      omega
          (arith, length-append (H ++ G') (bytes ++ S), length-append H G', length-append bytes S),
    )

-- The first `len` bytes of the stack become the end of the heap.
pub move_in_slice_lem :
    (buf H G M S : Bytes) (heap stack len : ℕ)
    → buf ≡ H ++ (G ++ (M ++ S))
    → heap ≡ length H
    → stack ≡ length M + length S
    → len ≡ length M
    → (buf' : Bytes) × (move_in_slice buf heap stack len ≡ ok buf')
      × Laid buf' (H ++ M) S
      × (length buf' ≡ length buf)
unfolding move_in_slice
move_in_slice_lem buf H G M S heap stack len e hh hs hl =
    let (Y, Z, ey, hy) = split_first (length M) (G ++ M) (omega (arith, length-append G M)) in
    let source : buf ≡ (H ++ G) ++ (M ++ S) = e ∙ sym (append_assoc H G (M ++ S)) in
    let target : buf ≡ H ++ (Y ++ (Z ++ S)) =
      e ∙ ap (λ t. H ++ t) (sym (append_assoc G M S) ∙ ap (λ t. t ++ S) ey ∙ append_assoc Y Z S) in
    let blen : length buf ≡ length H + (length G + (length M + length S)) =
      ap length source
      ∙ omega (arith, length-append (H ++ G) (M ++ S), length-append H G, length-append M S) in
    let ylen : length buf ≡ length H + (length Y + (length Z + length S)) =
      ap length target
      ∙ omega
          (arith, length-append H (Y ++ (Z ++ S)), length-append Y (Z ++ S), length-append Z S) in
    (
      H ++ (M ++ (Z ++ S)),
      rw (sub_lem (length buf) stack (omega arith)) (
          copy_within_lem (length buf - stack) (length buf - stack + len) heap buf (H ++ G) M S H Y
            (Z ++ S) source target (omega (arith, length-append H G))
            (omega (arith, length-append H G)) hh hy),
      (Z, sym (append_assoc H M (Z ++ S))),
      omega (arith, length-append H (M ++ (Z ++ S)), length-append M (Z ++ S), length-append Z S),
    )

resize_lem :
    (n : ℕ) (buf : Bytes) → length buf ≤ n → resize n buf ≡ buf ++ replicate (n - length buf) 0
unfolding resize
resize_lem n buf h = rw (take_all n buf h)

-- Growing a vector keeps its heap in front and moves its stack to the new end.
pub do_reserve_lem :
    (buf H G S : Bytes) (heap stack additional : ℕ)
    → buf ≡ H ++ (G ++ S)
    → heap ≡ length H
    → stack ≡ length S
    → length G < additional
    → (G' : Bytes) × (do_reserve buf heap stack additional ≡ ok (H ++ (G' ++ S)))
      × (length G' ≡ additional)
do_reserve_lem buf H G S heap stack additional e hh hs hg =
    let len : length buf ≡ length H + (length G + length S) =
      ap length e ∙ omega (arith, length-append H (G ++ S), length-append G S) in
    let n = heap + stack + additional in
    let zeros : Bytes = replicate (n - length buf) 0 in
    let zlen : length zeros ≡ n - length buf = length-replicate (n - length buf) 0 in
    let grow : resize n buf ≡ buf ++ zeros = resize_lem n buf (omega arith) in
    let (G', Y, eg, hy) =
      split_last (length S) (G ++ (S ++ zeros))
        (omega (arith, length-append G (S ++ zeros), length-append S zeros)) in
    let glen : length G' + length Y ≡ length G + (length S + length zeros) = omega (
      arith,
      ap length eg,
      length-append G' Y,
      length-append G (S ++ zeros),
      length-append S zeros,
    ) in
    let source : buf ++ zeros ≡ (H ++ G) ++ (S ++ zeros) =
      ap (λ t. t ++ zeros) (e ∙ sym (append_assoc H G S)) ∙ append_assoc (H ++ G) S zeros in
    let target : buf ++ zeros ≡ (H ++ G') ++ (Y ++ []) =
      source
      ∙ append_assoc H G (S ++ zeros)
      ∙ ap (λ t. H ++ t) eg
      ∙ sym (append_assoc H G' Y)
      ∙ ap (λ t. (H ++ G') ++ t) (sym (append-nil Y)) in
    let glen2 : length (buf ++ zeros) ≡ length buf + length zeros = length-append buf zeros in
    (
      G',
      unfold do_reserve in
          rw
            (
              grow,
              sub_lem (length buf) stack (omega arith),
              sub_lem (length (buf ++ zeros)) stack (omega arith),
            )
            (copy_within_lem (length buf - stack) (length buf) (length (buf ++ zeros) - stack)
                (buf ++ zeros) (H ++ G) S zeros (H ++ G') Y [] source target
                (omega (arith, length-append H G)) (omega (arith, length-append H G))
                (omega (arith, length-append H G')) hy
              ∙ ap ok (ap (λ t. (H ++ G') ++ t) (append-nil S) ∙ append_assoc H G' S)),
      omega arith,
    )

pub slice_to_lem :
    (end : ℕ) (buf X Y : Bytes) → buf ≡ X ++ Y → end ≡ length X → slice_to end buf ≡ ok X
unfolding slice_to
slice_to_lem end buf X Y e h =
    rw (le→leb end (length buf) (omega (arith, ap length e, length-append X Y)))
      (ap ok (ap (take end) e ∙ take-append end X Y h))

-- Writing over bytes of the stack that were written before.
pub write_before_stack_over :
    (buf Y M S bytes : Bytes) (stack : ℕ)
    → buf ≡ Y ++ (M ++ S)
    → stack ≡ length S
    → length M ≡ length bytes
    → write_before_stack buf stack bytes ≡ ok (Y ++ (bytes ++ S))
unfolding write_before_stack
write_before_stack_over buf Y M S bytes stack e hs hm =
    let len : length buf ≡ length Y + (length M + length S) =
      ap length e ∙ omega (arith, length-append Y (M ++ S), length-append M S) in
    rw
      (
        sub_lem (length buf) stack (omega arith),
        sub_lem (length buf - stack) (length bytes) (omega arith),
      )
      (ap (copy_from_slice (length buf - stack - length bytes) bytes) e
        ∙ copy_from_slice_lem (length buf - stack - length bytes) bytes Y M S (omega arith) hm)
