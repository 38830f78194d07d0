-- ===== src/Deserialize/Reads.antt =====
-- The methods of `Deserializer` on input that ends in what is to be read, and the reader's half of
-- the contract.
use alkahest.Prelude.{
  ℕ, ◌+◌, ◌-◌, ◌≤◌, ◌<◌, ◌≡◌, refl, sym, ap, ◌++◌, none, length, take, le→leb, le→ltb_false, arith,
  length-append, append_assoc, take-append, drop-append,
}
use alkahest.Prelude.Words.{Bytes, to_le_bytes, length-to_le_bytes, from-to_le_bytes}
use alkahest.Outcome.{ok, sub_lem, sub_eq}
use alkahest.Formula.{Formula, size_stack, usize_limit}
use alkahest.Serialize.Wire.{WireFormat}
use alkahest.Deserialize.{
  Deserializer, Deserialize, Read, new_unchecked, sub, read_bytes, deserialize_usize, read_usize,
}

-- The input `pre ++ bytes`, of which `bytes` and `k` bytes more are the stack.
abbrev pub at_end : Bytes → Bytes → ℕ → Deserializer
at_end pre bytes k = record { input = pre ++ bytes; stack = k + length bytes }

-- An image is read back, wherever it stands: the heap bytes at their address, any bytes between them
-- and the stack bytes, and, for a sized formula, any `k` of those counted to the stack.
pub record IsReader {T : Type 0} (f : Formula) (d : Deserialize T) (w : WireFormat T) : Type 0 where
  pub reads :
      (v : T) (front hb mid sb pre : Bytes) (k : ℕ)
      → w.IsValue v
      → w.Wire v (length front) hb sb
      → pre ≡ front ++ (hb ++ mid)
      → k ≤ length pre
      → (f.max_stack_size ≡ none → k ≡ 0)
      → d.deserialize (at_end pre sb k) ≡ ok v

pub new_unchecked_lem :
    (n : ℕ) (input : Bytes)
    → n ≤ length input
    → new_unchecked n input ≡ ok (record { input = input; stack = n })
unfolding new_unchecked
new_unchecked_lem n input h = rw (le→leb n (length input) h)

-- Splitting off exactly the bytes at the end.
pub sub-at_end :
    (pre bytes : Bytes) (k n : ℕ)
    → n ≡ length bytes
    → sub (at_end pre bytes k) n ≡ ok (record { input = pre; stack = k }, at_end pre bytes 0)
unfolding sub
sub-at_end pre bytes k n e =
    let len = length-append pre bytes in
    rw
      (
        e,
        le→ltb_false (k + length bytes) (length bytes) (omega arith),
        new_unchecked_lem (length bytes) (pre ++ bytes) (omega arith),
        sub_eq (length (pre ++ bytes)) (length bytes) (length pre) (omega arith),
        take-append (length pre) pre bytes refl,
      )
      (let rest : k + length bytes - length bytes ≡ k = omega arith in
        let all : length bytes ≡ 0 + length bytes = omega arith in rw (rest, ← all))

-- Splitting off `bytes` and a part of what the stack has below them.
pub sub_below :
    (pre bytes : Bytes) (k j n : ℕ)
    → n ≡ j + length bytes
    → j ≤ k
    → k ≤ length pre
    → (de : Deserializer) × (sub (at_end pre bytes k) n ≡ ok (de, at_end pre bytes j))
unfolding sub
sub_below pre bytes k j n e h hk =
    let len = length-append pre bytes in
    (
      record {
        input = take (length (pre ++ bytes) - n) (pre ++ bytes);
        stack = k + length bytes - n;
      },
      rw
          (
            le→ltb_false (k + length bytes) n (omega arith),
            new_unchecked_lem n (pre ++ bytes) (omega arith),
            sub_lem (length (pre ++ bytes)) n (omega arith),
          )
          (ap {B = Read (Deserializer × Deserializer)}
            (λ t. ok (
              record {
                input = take (length (pre ++ bytes) - n) (pre ++ bytes);
                stack = k + length bytes - n;
              },
              record { input = pre ++ bytes; stack = t },
            ))
            e),
    )

pub read_bytes-at_end :
    (pre bytes : Bytes) (k n : ℕ)
    → n ≡ length bytes
    → read_bytes (at_end pre bytes k) n ≡ ok (record { input = pre; stack = k }, bytes)
unfolding read_bytes
read_bytes-at_end pre bytes k n e =
    let len = length-append pre bytes in
    let rest : k + length bytes - length bytes ≡ k = omega arith in
    rw (
      e,
      le→ltb_false (k + length bytes) (length bytes) (omega arith),
      sub_eq (length (pre ++ bytes)) (length bytes) (length pre) (omega arith),
      take-append (length pre) pre bytes refl,
      drop-append (length pre) pre bytes refl,
      rest,
    )

abbrev pub word : ℕ → Bytes
word v = to_le_bytes size_stack v

pub deserialize_usize-at_end :
    (pre : Bytes) (v k : ℕ) → v < usize_limit → deserialize_usize (at_end pre (word v) k) ≡ ok v
unfolding deserialize_usize usize_limit
deserialize_usize-at_end pre v k h =
    rw (read_bytes-at_end pre (word v) k size_stack (sym (length-to_le_bytes size_stack v)))
      (ap ok (from-to_le_bytes size_stack v h))

pub read_usize-at_end :
    (pre : Bytes) (v k : ℕ)
    → v < usize_limit
    → read_usize (at_end pre (word v) k) ≡ ok (record { input = pre; stack = k }, v)
unfolding read_usize
read_usize-at_end pre v k h = rw (
  sub-at_end pre (word v) k size_stack (sym (length-to_le_bytes size_stack v)),
  deserialize_usize-at_end pre v 0 h,
)

-- The image of a first part `sa` with the heap `ha`, and of what comes after it: the deserializer seen
-- as that of the first part, and where the heap of each of the two stands.
pub peel :
    (front ha hr mid sa sr hb sb pre : Bytes) (k : ℕ)
    → hb ≡ ha ++ hr
    → sb ≡ sr ++ sa
    → pre ≡ front ++ (hb ++ mid)
    → (at_end pre sb k ≡ at_end (pre ++ sr) sa (k + length sr))
      × (pre ++ sr ≡ front ++ (ha ++ ((hr ++ mid) ++ sr)))
      × (pre ≡ (front ++ ha) ++ (hr ++ mid))
peel front ha hr mid sa sr hb sb pre k eh es e = (
  rw (es, ← append_assoc pre sr sa)
      (ap (λ n. record { input = (pre ++ sr) ++ sa; stack = n })
        (omega (arith, length-append sr sa))),
  rw (
    e,
    eh,
    append_assoc front ((ha ++ hr) ++ mid) sr,
    append_assoc ha hr mid,
    append_assoc ha (hr ++ mid) sr,
  ),
  rw (e, eh, append_assoc ha hr mid, append_assoc front ha (hr ++ mid)),
)
