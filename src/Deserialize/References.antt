-- ===== src/Deserialize/References.antt =====
-- `read_reference` and `Deserializer::deref` on what `write_reference` wrote.
use alkahest.Prelude.{
  ℕ, ◌+◌, ◌*◌, ◌≤◌, ◌<◌, ◌≡◌, refl, sym, ap, ◌∙◌, ◌++◌, [], true, false, some, length, take, le→leb,
  le→ltb_false, arith, length-append, append_assoc, append-nil, take-append, drop-append,
  Bool-cases, inl, inr,
}
use alkahest.Prelude.Words.{Bytes, length-to_le_bytes}
use alkahest.Outcome.{ok, sub_eq, ◌>>=◌}
use alkahest.Formula.{Formula, size_stack, usize_limit, reference_size}
use alkahest.Serialize.Wire.Address.{reference_bytes, length-reference_bytes}
use alkahest.Deserialize.{
  Deserializer, Read, new, sub, deserialize_usize, read_usize_pair, read_reference, deref,
}
use alkahest.Deserialize.Reads.{
  at_end, sub-at_end, word, read_usize-at_end, deserialize_usize-at_end, new_unchecked_lem,
}

pub new_lem :
    (n : ℕ) (input : Bytes)
    → n ≤ length input
    → new n input ≡ ok (record { input = input; stack = n })
unfolding new
new_lem n input h = rw (le→ltb_false (length input) n h, new_unchecked_lem n input h)

read_usize_pair_lem :
    (pre : Bytes) (size address : ℕ)
    → size < usize_limit
    → address < usize_limit
    → read_usize_pair (at_end pre (word address ++ word size) 0) ≡ ok (size, address)
unfolding read_usize_pair
read_usize_pair_lem pre size address hs ha =
    let pair : Bytes = word address ++ word size in
    let lp : length pair ≡ size_stack * 2 = length-reference_bytes false size address in
    let regroup : at_end pre pair 0
        ≡ at_end (pre ++ word address) (word size) (0 + length (word address)) =
      rw (← append_assoc pre (word address) (word size)) (
        ap (λ n. record { input = (pre ++ word address) ++ word size; stack = n })
          (omega (arith, length-append (word address) (word size)))) in
    rw (sub-at_end pre pair 0 (size_stack * 2) (sym lp)) (
      ap {B = Read (ℕ × ℕ)}
        (λ de. sub de size_stack >>= λ (de1, s1). deserialize_usize s1 >>= λ first.
          sub de1 size_stack >>= λ (_, s2). deserialize_usize s2 >>= λ second. ok (first, second))
        regroup
      ∙ rw (
        sub-at_end (pre ++ word address) (word size) (0 + length (word address)) size_stack
            (sym (length-to_le_bytes size_stack size)),
        deserialize_usize-at_end (pre ++ word address) size 0 hs,
        sub-at_end pre (word address) 0 size_stack (sym (length-to_le_bytes size_stack address)),
        deserialize_usize-at_end pre address 0 ha,
      ))

pub length-reference :
    (f : Formula) (size address : ℕ)
    → reference_size f ≡ length (reference_bytes f.exact_size size address)
unfolding reference_size
length-reference f size address = sym (length-reference_bytes f.exact_size size address)

-- A deserializer over the bytes at the front of a slice.
open_front :
    (n : ℕ) (bytes rest : Bytes)
    → n ≡ length bytes
    → new n (take n (bytes ++ rest)) ≡ ok (at_end [] bytes 0)
open_front n bytes rest e =
    ap (new n) (take-append n bytes rest e)
    ∙ new_lem n bytes (omega arith)
    ∙ ap {B = Read Deserializer} (λ t. ok (record { input = bytes; stack = t })) (e ∙ omega arith)

module _ (f : Formula) (size address : ℕ) (hs : size < usize_limit) (ha : address < usize_limit)
    (exact : f.exact_size ≡ true → f.max_stack_size ≡ some size) where
  reference : Bytes
  reference = reference_bytes f.exact_size size address

  -- The address and the size are read back, whatever follows the reference.
  pub read_reference_lem :
      (rest : Bytes) (len : ℕ)
      → size ≤ len
      → read_reference f (reference_bytes f.exact_size size address ++ rest) len
        ≡ ok (address, size)
  unfolding read_reference
  read_reference_lem rest len hl =
      let n : ℕ = reference_size f in
      let bytes : Bytes = reference_bytes f.exact_size size address in
      let ln : n ≡ length bytes = length-reference f size address in
      rw
        (
          le→leb n (length (bytes ++ rest)) (omega (arith, length-append bytes rest)),
          open_front n bytes rest ln,
        )
        (elim (Bool-cases f.exact_size) [
          | inl x ↦
              rw (x, read_usize-at_end [] address 0 ha, exact x)
                (ap {B = Read (ℕ × ℕ)} (λ t. ok (address, t)) (omega arith))
          | inr x ↦ rw (x, read_usize_pair_lem [] size address hs ha)
        ])

  -- For a size and an address that a `FixedUsizeType` holds, the size being the formula's
  -- maximum if the formula is exact: `deref` on the bytes of that reference returns the
  -- deserializer over everything before the address, with the size for its stack, if the
  -- address is the length of that part and the size is at most the address.
  pub deref_lem :
      (target mid : Bytes) (k : ℕ)
      → address ≡ length target
      → size ≤ length target
      → deref f (at_end (target ++ mid) (reference_bytes f.exact_size size address) k)
        ≡ ok (record { input = target; stack = size })
  unfolding deref
  deref_lem target mid k et hl =
      let n : ℕ = reference_size f in
      let bytes : Bytes = reference_bytes f.exact_size size address in
      let ln : n ≡ length bytes = length-reference f size address in
      let pre : Bytes = target ++ mid in
      let lt : length pre ≡ length target + length mid = length-append target mid in
      let lin : length (pre ++ bytes) ≡ length pre + length bytes = length-append pre bytes in
      let readable : read_reference f bytes (length pre) ≡ ok (address, size) =
        ap (λ t. read_reference f t (length pre)) (sym (append-nil bytes))
        ∙ read_reference_lem [] (length pre) (omega arith) in
      rw (
        le→ltb_false (k + length bytes) n (omega arith),
        sub_eq (length (pre ++ bytes)) n (length pre) (omega arith),
        take-append (length pre) pre bytes refl,
        drop-append (length pre) pre bytes refl,
        readable,
        le→ltb_false (length pre) address (omega arith),
        take-append address target mid et,
        new_lem size target hl,
      )
