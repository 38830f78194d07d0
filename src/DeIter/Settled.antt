-- ===== src/DeIter/Settled.antt =====
-- The calls of `DeIter` that keep the state on an error, against those of `Deserializer` in
-- src/deserialize.rs, whose callers return at once.
use alkahest.Prelude.{ℕ, ◌≡◌, refl, ap, ◌∙◌, Bool, true, false, Option, none, some}
use alkahest.Outcome.{ok, err, panic, ◌>>=◌}
use alkahest.Formula.{Formula, size_stack}
use alkahest.Deserialize.{
  Deserializer, Deserialize, Read, sub, value_stack, read_value, read_usize, deserialize_usize,
}
use alkahest.DeIter.{kept, onward, take_usize, field_stack, take_value}

-- What a call returns, its state left out where it fails.
abbrev pub settled : {A : Type 0} → Deserializer × Read A → Read (Deserializer × A)
settled (de, ok a) = ok (de, a)
settled (de, err e) = err e
settled (de, panic) = panic

settled-kept :
    {A : Type 0} (de : Deserializer) (r : Read (Deserializer × A)) → settled (kept de r) ≡ r
settled-kept de (ok (de', a)) = refl
settled-kept de (err e) = refl
settled-kept de panic = refl

settled-onward :
    {A B : Type 0} (p : Deserializer × Read A) (rest : Deserializer → A → Deserializer × Read B)
    → settled (onward p rest) ≡ (settled p >>= λ (de, a). settled (rest de a))
settled-onward (de, ok a) rest = refl
settled-onward (de, err e) rest = refl
settled-onward (de, panic) rest = refl

settled_pair :
    {A : Type 0} (de : Deserializer) (r : Read A) → settled (de, r) ≡ (r >>= λ a. ok (de, a))
settled_pair de (ok a) = refl
settled_pair de (err e) = refl
settled_pair de panic = refl

-- A success has a state.
pub success :
    {A : Type 0} (p : Deserializer × Read A) (de : Deserializer) (a : A)
    → settled p ≡ ok (de, a)
    → p ≡ (de, ok a)
success (de', ok a') de a e = cc e
success (de', err x) de a e = absurd (cc e)
success (de', panic) de a e = absurd (cc e)

bind_ext :
    {A B : Type 0} (r : Read A) (f g : A → Read B) → ((a : A) → f a ≡ g a) → (r >>= f) ≡ (r >>= g)
bind_ext (ok a) f g h = h a
bind_ext (err e) f g h = refl
bind_ext panic f g h = refl

take_usize_lem : (de : Deserializer) → settled (take_usize de) ≡ read_usize de
unfolding take_usize read_usize
take_usize_lem de =
    settled-onward (kept de (sub de size_stack)) (λ de' s. (de', deserialize_usize s))
    ∙ ap (λ r. r >>= λ (de', s). settled (de', deserialize_usize s))
        (settled-kept de (sub de size_stack))
    ∙ bind_ext (sub de size_stack) _ _ (λ (de', s). settled_pair de' (deserialize_usize s))

field_stack_lem :
    (m : Option ℕ) (x : Bool) (de : Deserializer)
    → settled (field_stack m de) ≡ value_stack m x false de
unfolding field_stack value_stack
field_stack_lem none x de = take_usize_lem de
field_stack_lem (some m) false de = refl
field_stack_lem (some m) true de = refl

module _ {T : Type 0} (f : Formula) (d : Deserialize T) where
  pub take_value_lem : (de : Deserializer) → settled (take_value f d de) ≡ read_value f d de false
  unfolding take_value read_value
  take_value_lem de =
      settled-onward (field_stack f.max_stack_size de)
        (λ de1 stack. onward (kept de1 (sub de1 stack)) (λ de2 s. (de2, d.deserialize s)))
      ∙ bind_ext (settled (field_stack f.max_stack_size de)) _
          (λ (de1, stack). sub de1 stack >>= λ (de2, s). d.deserialize s >>= λ v. ok (de2, v))
          (λ (de1, stack).
            settled-onward (kept de1 (sub de1 stack)) (λ de2 s. (de2, d.deserialize s))
            ∙ ap (λ r. r >>= λ (de2, s). settled (de2, d.deserialize s))
                (settled-kept de1 (sub de1 stack))
            ∙ bind_ext (sub de1 stack) _ _ (λ (de2, s). settled_pair de2 (d.deserialize s)))
      ∙ ap
          (λ r. r >>= λ (de1, stack).
            sub de1 stack >>= λ (de2, s). d.deserialize s >>= λ v. ok (de2, v))
          (field_stack_lem f.max_stack_size f.exact_size de)
