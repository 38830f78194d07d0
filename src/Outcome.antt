-- ===== src/Outcome.antt =====
-- What a call returns: Rust's `Result`, or a panic (a failed assertion, an arithmetic overflow or a
-- slice index out of range, as the debug profile checks them).
use alkahest.Prelude.{
  ℕ, ◌+◌, ◌-◌, ◌≤◌, ◌≡◌, ◌∙◌, ap, Bool, true, false, leb, le→leb, if◌then◌else◌, arith,
}

pub data Outcome (E A : Type 0) : Type 0 where
  ok : A → Outcome E A
  err : E → Outcome E A
  panic : Outcome E A

infixl 5 ◌>>=◌ ◌>>◌
abbrev pub ◌>>=◌ : {E A B : Type 0} → Outcome E A → (A → Outcome E B) → Outcome E B
ok a >>= f = f a
err e >>= f = err e
panic >>= f = panic

abbrev pub ◌>>◌ : {E B : Type 0} → Outcome E (Unit {0}) → Outcome E B → Outcome E B
m >> k = m >>= λ _. k

-- `assert!` and `debug_assert!`
abbrev pub assert : {E : Type 0} → Bool → Outcome E (Unit {0})
assert true = ok tt
assert false = panic

-- `a - b` on `usize`
unfoldable pub checked_sub : {E : Type 0} → ℕ → ℕ → Outcome E ℕ
checked_sub a b = if leb b a then ok (a - b) else panic

pub sub_lem : {E : Type 0} (a b : ℕ) → b ≤ a → checked_sub {E = E} a b ≡ ok (a - b)
unfolding checked_sub
sub_lem a b h = rw (le→leb b a h)

pub sub_eq : {E : Type 0} (a b c : ℕ) → a ≡ b + c → checked_sub {E = E} a b ≡ ok c
sub_eq a b c e = sub_lem a b (omega arith) ∙ ap ok (omega arith)
