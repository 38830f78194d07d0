-- ===== src/Safety.antt =====
-- The methods of `Deserializer`, src/deserialize.rs, on input of which nothing is known: it need not
-- have been written by `Serialize`.
pub mod Methods
pub mod References
pub mod Formulas
use alkahest.Prelude.{
  ℕ, ◌≤◌, ◌<◌, ◌≡◌, Bool, true, false, none, some, ltb, ltb-cases, if◌then◌else◌, length, inl, inr,
}
use alkahest.Outcome.{ok, err, panic, ◌>>=◌}
use alkahest.Formula.{Formula}
use alkahest.Deserialize.{Deserializer, Deserialize, Read}

-- The call returns, with a value that has `P` or with an error.
abbrev pub Returns : {A : Type 0} → (A → Type 0) → Read A → Type 0
Returns P (ok a) = P a
Returns P (err e) = Unit
Returns P panic = ⊥

-- The invariant of `Deserializer`: its stack is within its input.
pub record IsSound (de : Deserializer) : Type 0 where
  pub within : de.stack ≤ length de.input

-- `deserialize` returns, whatever the input is, and the constants have what `Formula` asks of them:
-- an exact size has a value.
pub record IsSafe {T : Type 0} (f : Formula) (d : Deserialize T) : Type 0 where
  pub sized : f.exact_size ≡ true → (m : ℕ) × (f.max_stack_size ≡ some m)
  pub returns : (de : Deserializer) → IsSound de → Returns (λ v. Unit) (d.deserialize de)

pub Returns-bind :
    {A B : Type 0} (P : A → Type 0) (Q : B → Type 0) (m : Read A) (rest : A → Read B)
    → Returns P m
    → ((a : A) → P a → Returns Q (rest a))
    → Returns Q (m >>= rest)
Returns-bind P Q (ok a) rest p q = q a p
Returns-bind P Q (err e) rest p q = tt
Returns-bind P Q panic rest p q = absurd p

pub Returns-map :
    {A : Type 0} (P Q : A → Type 0) (m : Read A) → Returns P m → ((a : A) → P a → Q a) → Returns Q m
Returns-map P Q (ok a) p q = q a p
Returns-map P Q (err e) p q = tt
Returns-map P Q panic p q = absurd p

pub Returns-ltb :
    {A : Type 0} (P : A → Type 0) (a b : ℕ) (x y : Read A)
    → (a < b → Returns P x)
    → (b ≤ a → Returns P y)
    → Returns P (if ltb a b then x else y)
Returns-ltb P a b x y p q = elim (ltb-cases a b) [
  | inl (e, h) ↦ rw e (p h)
  | inr (e, h) ↦ rw e (q h)
]

pub Returns-not_panic : {A : Type 0} (P : A → Type 0) (m : Read A) → Returns P m → m ≡ panic → ⊥
Returns-not_panic P (ok a) p e = cc e
Returns-not_panic P (err x) p e = cc e
Returns-not_panic P panic p e = p
