-- ===== src/Lazy/Laws.antt =====
-- A packet of a slice that is read as `Lazy`: the elements come out of its iterator, and out of `get`.
use alkahest.Prelude.{ℕ, suc, ◌<◌, ◌≡◌, ◌≢◌, refl, ap, ◌∙◌, Bool, true, false, Option, some, List}
use alkahest.Prelude.{ltb, take, ◌-◌, if◌then◌else◌, leb, length}
use alkahest.Prelude.Words.{Bytes}
use alkahest.Outcome.{ok, err, panic, ◌>>=◌, assert}
use alkahest.Formula.{Formula, usize_limit, reference_size}
use alkahest.Deserialize.{
  out_of_bounds, wrong_address, Deserialize, Read, new_unchecked, read_reference,
}
use alkahest.Serialize.Wire.{WireFormat}
use alkahest.Codec.{Codec, IsCodec}
use alkahest.Packet.{read_packet, write_packet_to_vec}
use alkahest.Packet.Laws.{packet_len}
use alkahest.Packet.RoundTrip.{write_packet_to_vec-ok}
use alkahest.Slice.{slice, slice_deserialize, iter_upper}
use alkahest.Slice.Laws.{elements_wire}
use alkahest.Slice.Contract.{slice-IsCodec}
use alkahest.DeIter.{into_unsized_iter}
use alkahest.DeIter.Loop.{deserialize_from_iter, deserialize_from_iter-collect}
use alkahest.Lazy.{Lazy, lazy, get, iter}

from_get :
    {T : Type 0} (d : Deserialize T) (value : Lazy) (r : Read T)
    → get d value ≡ r
    → d.deserialize value.de ≡ r
unfolding get
from_get d value r e = e

returned : {A : Type 0} {a b : A} {r : Read A} → r ≡ ok a → r ≡ ok b → a ≡ b
returned e e' = cc (e, e')

-- A call that returns, and what it passes on.
bind_ok :
    {A B : Type 0} (r : Read A) (g : A → Read B) (b : B)
    → (r >>= g) ≡ ok b
    → (a : A) × (r ≡ ok a) × (g a ≡ ok b)
bind_ok (ok a) g b e = (a, refl, e)
bind_ok (err x) g b e = absurd (cc e)
bind_ok panic g b e = absurd (cc e)

if-bind :
    {A B : Type 0} (b : Bool) (r r' : Read A) (g : A → Read B)
    → ((if b then r else r') >>= g) ≡ (if b then r >>= g else (r' >>= g))
if-bind true r r' g = refl
if-bind false r r' g = refl

bind_assoc :
    {A B C : Type 0} (r : Read A) (g : A → Read B) (h : B → Read C) (k : A → Read C)
    → ((a : A) → (g a >>= h) ≡ k a)
    → (r >>= g >>= h) ≡ (r >>= k)
bind_assoc (ok a) g h k e = e a
bind_assoc (err x) g h k e = refl
bind_assoc panic g h k e = refl

module _ {T : Type 0} (f : Formula) (d : Deserialize T) where
  read_packet-get :
      (input : Bytes)
      → (read_packet f lazy input >>= λ (value, n). get d value >>= λ v. ok (v, n))
        ≡ read_packet f d input
  unfolding read_packet get
  read_packet-get input =
      let later : Lazy × ℕ → Read (T × ℕ) = λ (value, n). get d value >>= λ v. ok (v, n) in
      if-bind _ (err out_of_bounds) _ later
      ∙ ap (λ r. if ltb (length input) (reference_size f) then err out_of_bounds else r)
          (bind_assoc (read_reference f input (length input - reference_size f)) _ later _
            (λ (address, size).
              if-bind (ltb address size) (err wrong_address) _ later
              ∙ ap (λ r. if ltb address size then err wrong_address else r)
                  (if-bind (ltb (length input) address) (err out_of_bounds) _ later
                    ∙ ap (λ r. if ltb (length input) address then err out_of_bounds else r)
                        (bind_assoc (new_unchecked size (take address input)) _ later _
                          (λ de. refl)))))

  -- The loop over the iterator of a lazy slice.
  unfoldable pub iterated : Lazy → Read (Option (Read (List T)))
  unfolding iter deserialize_from_iter
  iterated value = do it ← iter f value; ok (deserialize_from_iter f d (suc it.upper) it)

  iterated-get :
      (value : Lazy) (vs : List T)
      → slice_deserialize f d value.de ≡ ok vs
      → iterated value ≡ ok (some (ok vs))
  unfolding iterated iter into_unsized_iter slice_deserialize
  iterated-get value vs e =
      let ((de', upper), r, e1) = bind_ok (iter_upper f.max_stack_size value.de) _ vs e in
      let (u, a, e2) = bind_ok (assert (leb de'.stack (length de'.input))) _ vs e1 in
      rw (r, a) (ap ok (deserialize_from_iter-collect f d upper de' ∙ ap some e2))

module _ {T : Type 0} (c : Codec T) (w : WireFormat T) (laws : IsCodec c w) where
  -- For a formula that keeps the contract `IsCodec` and whose maximum is not 0, and a list of
  -- its values whose packet as a slice is shorter than a `FixedUsizeType` can count:
  -- `write_packet_to_vec` succeeds into every vector; `read_packet` of what it wrote, into a
  -- `Lazy` slice, succeeds with the length that was returned; and that one `Lazy` gives the
  -- list both by `get` and by the loop over `next` of its `iter`, which ends.
  pub write_packet-iterated :
      (vs : List T) (output : Bytes)
      → c.formula.max_stack_size ≢ some 0
      → (elements_wire c.formula w).IsValue vs
      → packet_len (slice c).formula (elements_wire c.formula w) vs < usize_limit
      → (r : ℕ × Bytes) × (value : Lazy) × (write_packet_to_vec
            (slice c).formula
            (slice c).ser
            vs
            output
          ≡ ok r)
        × (read_packet (slice c).formula lazy r.1 ≡ ok (value, r.0))
        × (get (slice c).de value ≡ ok vs)
        × (iterated c.formula c.de value ≡ ok (some (ok vs)))
  write_packet-iterated vs output nonzero val small =
      let f = (slice c).formula in
      let (r, written, (_, _, read)) =
        write_packet_to_vec-ok (slice c) (elements_wire c.formula w)
          (slice-IsCodec c w laws nonzero) vs val small output in
      let ((value, n), opened, e) =
        bind_ok (read_packet f lazy r.1) _ (vs, r.0) (read_packet-get f (slice c).de r.1 ∙ read) in
      let (vs', got, e') = bind_ok (get (slice c).de value) _ (vs, r.0) e in
      let same : (vs', n) ≡ (vs, r.0) = returned refl e' in
      let all : get (slice c).de value ≡ ok vs = got ∙ ap (λ q. ok q.0) same in
      (
        r,
        value,
        written,
        opened ∙ ap (λ q. ok (value, q.1)) same,
        all,
        iterated-get c.formula c.de value vs (from_get (slice c).de value (ok vs) all),
      )
