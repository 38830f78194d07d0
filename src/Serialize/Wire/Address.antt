-- ===== src/Serialize/Wire/Address.antt =====
-- `write_reference`: the bytes of an address, with its size, on the stack.
use alkahest.Prelude.{
  ℕ, ◌+◌, ◌*◌, ◌<◌, ◌≡◌, refl, sym, ◌∙◌, ◌++◌, inl, inr, Bool, true, false, some, length, eq→==,
  arith, length-append, append_assoc, Bool-cases, if◌then◌else◌,
}
use alkahest.Prelude.Words.{Bytes, to_le_bytes, length-to_le_bytes}
use alkahest.Formula.{Formula, size_stack, usize_limit}
use alkahest.Size.{usize_truncate_lem}
use alkahest.Sizes.{Sizes, total, add_stack}
use alkahest.Buffer.{Buffer, write_stack}
use alkahest.Buffer.Holds.{Frame, Holds, Ensures, Ensures-bind, Ensures-map, Holds-eq}
use alkahest.Buffer.Laws.{write_stack-Ensures}
use alkahest.Serialize.{write_reference}

-- The bytes of a reference in memory: the address, and above it the size unless the formula fixes it.
abbrev pub reference_bytes : Bool → ℕ → ℕ → Bytes
reference_bytes true size address = to_le_bytes size_stack address
reference_bytes false size address = to_le_bytes size_stack address ++ to_le_bytes size_stack size

abbrev pub reference_width : Bool → ℕ
reference_width x = if x then size_stack else size_stack * 2

pub length-reference_bytes :
    (x : Bool) (size address : ℕ) → length (reference_bytes x size address) ≡ reference_width x
length-reference_bytes true size address = length-to_le_bytes size_stack address
length-reference_bytes false size address = omega (
  arith,
  length-append (to_le_bytes size_stack address) (to_le_bytes size_stack size),
  length-to_le_bytes size_stack address,
  length-to_le_bytes size_stack size,
)

push_word :
    {k : Frame} {b : Buffer} {z : Sizes} {H S : Bytes} (v n : ℕ)
    → n ≡ size_stack
    → Holds k b z H S
    → Ensures k
        (total z + n)
        (λ b'. Holds k b' (add_stack z n) H (to_le_bytes size_stack v ++ S))
        (write_stack b z.heap z.stack (to_le_bytes size_stack v))
push_word v n e h =
    let len : length (to_le_bytes size_stack v) ≡ n = length-to_le_bytes size_stack v ∙ sym e in
    Ensures-map (write_stack-Ensures (to_le_bytes size_stack v) h) (omega arith)
      (λ b' h'. Holds-eq h' refl (omega arith) refl refl)

module _ {k : Frame} {b : Buffer} {z : Sizes} {H S : Bytes} (f : Formula) (size address : ℕ)
    (h : Holds k b z H S) (exact : f.exact_size ≡ true → f.max_stack_size ≡ some size) where
  -- The reference is pushed on the stack.
  pub write_reference-Ensures :
      (n : ℕ)
      → n ≡ reference_width f.exact_size
      → size < usize_limit
      → address < usize_limit
      → Ensures k
          (total z + n)
          (λ b'. Holds k b' (add_stack z n) H (reference_bytes f.exact_size size address ++ S))
          (write_reference f size address z.heap z.stack b)
  unfolding write_reference
  write_reference-Ensures n en ls la = elim (Bool-cases f.exact_size) [
    | inl x ↦
        rw
          (
            usize_truncate_lem address la,
            usize_truncate_lem size ls,
            x,
            exact x,
            usize_truncate_lem size ls,
            eq→== size size refl,
          )
          (push_word address n (en ∙ rw x) h)
    | inr x ↦
        let wide : n ≡ size_stack * 2 = en ∙ rw x in
        rw (usize_truncate_lem address la, usize_truncate_lem size ls, x)
          (Ensures-bind k (write_stack b z.heap z.stack (to_le_bytes size_stack size)) _
            (omega arith) (push_word size size_stack refl h)
            (λ b1 h1 fits room.
              (Ensures-map (push_word address size_stack refl h1) (omega arith) (λ b2 h2.
                  Holds-eq h2 refl (omega arith) refl (
                    sym (
                      append_assoc (to_le_bytes size_stack address) (to_le_bytes size_stack size)
                        S)))).post
                room))
  ]
