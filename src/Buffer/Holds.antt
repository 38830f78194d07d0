-- ===== src/Buffer/Holds.antt =====
-- What a buffer stands for: a heap and a stack of bytes, whatever its implementation; and what a
-- call on it ensures. `Frame` is what no call changes.
use alkahest.Prelude.{
  ℕ, ◌+◌, ◌≤◌, ◌<◌, ◌≡◌, true, false, ◌++◌, length, length-append, ap, subst, ◌∙◌, arith,
}
use alkahest.Prelude.Words.{Bytes}
use alkahest.Outcome.{ok, err, panic, ◌>>=◌}
use alkahest.Sizes.{Sizes, total}
use alkahest.Formula.{usize_limit}
use alkahest.Buffer.{
  Write, Buffer, dry_buffer, checked_fixed_buffer, slice_buffer, maybe_fixed_buffer, vec_buffer,
}

pub data Frame : Type 0 where
  dry_frame : Frame
  checked_frame : ℕ → Frame
  slice_frame : ℕ → Frame
  maybe_frame : ℕ → Frame
  vec_frame : Frame

abbrev pub frame : Buffer → Frame
frame dry_buffer = dry_frame
frame (checked_fixed_buffer buf) = checked_frame (length buf)
frame (slice_buffer buf) = slice_frame (length buf)
frame (maybe_fixed_buffer buf e) = maybe_frame (length buf)
frame (vec_buffer buf) = vec_frame

-- `n` bytes of heap and stack are within what the buffer can take: a dry, a maybe-fixed and a vector
-- buffer take any number.
abbrev pub Fits : Frame → ℕ → Type 0
Fits (checked_frame cap) n = n ≤ cap
Fits (slice_frame cap) n = n ≤ cap
Fits dry_frame n = Unit
Fits (maybe_frame cap) n = Unit
Fits vec_frame n = Unit

-- The only buffer that answers `BufferExhausted`, and when.
abbrev pub Refuses : Frame → ℕ → Type 0
Refuses (checked_frame cap) n = cap < n
Refuses (slice_frame cap) n = ⊥
Refuses dry_frame n = ⊥
Refuses (maybe_frame cap) n = ⊥
Refuses vec_frame n = ⊥

-- What must hold for a call that comes to use `n` bytes to promise anything: sizes and addresses are
-- representable, and a plain slice, which does not check, is long enough.
abbrev pub Within : Frame → ℕ → Type 0
Within (slice_frame cap) n = n ≤ cap
Within (checked_frame cap) n = Unit
Within dry_frame n = Unit
Within (maybe_frame cap) n = Unit
Within vec_frame n = Unit

pub record Room (k : Frame) (n : ℕ) : Type 0 where
  pub within : Within k n
  pub small : n < usize_limit

-- The heap `H` in front, the stack `S` behind, anything between them.
abbrev pub Laid : Bytes → Bytes → Bytes → Type 0
Laid buf H S = (G : Bytes) × (buf ≡ H ++ (G ++ S))

abbrev pub Content : Buffer → Bytes → Bytes → Type 0
Content dry_buffer H S = Unit
Content (checked_fixed_buffer buf) H S = Laid buf H S
Content (slice_buffer buf) H S = Laid buf H S
Content (maybe_fixed_buffer buf true) H S = length buf < length H + length S
Content (maybe_fixed_buffer buf false) H S = Laid buf H S
Content (vec_buffer buf) H S = Laid buf H S

pub record Holds (k : Frame) (b : Buffer) (z : Sizes) (H S : Bytes) : Type 0 where
  pub same : frame b ≡ k
  pub heap : z.heap ≡ length H
  pub stack : z.stack ≡ length S
  pub content : Content b H S

-- The call returns a value with `P` if the bytes fit, is refused if they do not, and never panics.
abbrev pub Post : {A : Type 0} → Frame → ℕ → (A → Type 0) → Write A → Type 0
Post k n P (ok a) = Fits k n × P a
Post k n P (err e) = Refuses k n
Post k n P panic = ⊥

pub record Ensures {A : Type 0} (k : Frame) (n : ℕ) (P : A → Type 0) (r : Write A) : Type 0 where
  pub post : Room k n → Post k n P r

pub Fits-mono : (k : Frame) {m n : ℕ} → m ≤ n → Fits k n → Fits k m
Fits-mono dry_frame h f = tt
Fits-mono (checked_frame cap) h f = omega arith
Fits-mono (slice_frame cap) h f = omega arith
Fits-mono (maybe_frame cap) h f = tt
Fits-mono vec_frame h f = tt

pub Refuses-mono : (k : Frame) {m n : ℕ} → m ≤ n → Refuses k m → Refuses k n
Refuses-mono (checked_frame cap) h f = omega arith
Refuses-mono (slice_frame cap) h f = absurd f
Refuses-mono dry_frame h f = absurd f
Refuses-mono (maybe_frame cap) h f = absurd f
Refuses-mono vec_frame h f = absurd f

pub Room-mono : (k : Frame) {m n : ℕ} → m ≤ n → Room k n → Room k m
Room-mono dry_frame h r = record { within = tt; small = omega arith }
Room-mono (checked_frame cap) h r = record { within = tt; small = omega arith }
Room-mono (slice_frame cap) h r = record { within = omega arith; small = omega arith }
Room-mono (maybe_frame cap) h r = record { within = tt; small = omega arith }
Room-mono vec_frame h r = record { within = tt; small = omega arith }

Post-bind :
    {A B : Type 0} (k : Frame) (m n : ℕ) (P : A → Type 0) (Q : B → Type 0) (r : Write A)
    (f : A → Write B)
    → m ≤ n
    → Post k m P r
    → ((a : A) → P a → Fits k m → Post k n Q (f a))
    → Post k n Q (r >>= f)
Post-bind k m n P Q (ok a) f h p rest = rest a p.1 p.0
Post-bind k m n P Q (err e) f h p rest = Refuses-mono k h p
Post-bind k m n P Q panic f h p rest = absurd p

-- A step, and then the rest: what fits at the end has fitted before.
pub Ensures-bind :
    {A B : Type 0} (k : Frame) {m n : ℕ} {P : A → Type 0} {Q : B → Type 0} (r : Write A)
    (f : A → Write B)
    → m ≤ n
    → Ensures k m P r
    → ((a : A) → P a → Fits k m → Room k n → Post k n Q (f a))
    → Ensures k n Q (r >>= f)
Ensures-bind k {m} {n} {P} {Q} r f h p rest = record {
  post = λ room.
      Post-bind k m n P Q r f h (p.post (Room-mono k h room)) (λ a q fits. rest a q fits room);
}

-- The bytes that a buffer holds fit it.
Content-Fits :
    (b : Buffer) (H S : Bytes) (n : ℕ) → n ≡ length H + length S → Content b H S → Fits (frame b) n
Content-Fits dry_buffer H S n e c = tt
Content-Fits (checked_fixed_buffer buf) H S n e (G, l) =
    omega (arith, ap length l, length-append H (G ++ S), length-append G S)
Content-Fits (slice_buffer buf) H S n e (G, l) =
    omega (arith, ap length l, length-append H (G ++ S), length-append G S)
Content-Fits (maybe_fixed_buffer buf e') H S n e c = tt
Content-Fits (vec_buffer buf) H S n e c = tt

pub Holds-Fits :
    {k : Frame} {b : Buffer} {z : Sizes} {H S : Bytes} → Holds k b z H S → Fits k (total z)
Holds-Fits {b} {z} {H} {S} h =
    subst (λ k'. Fits k' (total z)) h.same
      (Content-Fits b H S (total z) (omega (arith, h.heap, h.stack)) h.content)

-- The same content under equal sizes and equal bytes.
pub Holds-eq :
    {k : Frame} {b : Buffer} {z z' : Sizes} {H H' S S' : Bytes}
    → Holds k b z H S
    → z'.heap ≡ z.heap
    → z'.stack ≡ z.stack
    → H ≡ H'
    → S ≡ S'
    → Holds k b z' H' S'
Holds-eq {b} {H'} {S} h eh es p q = record {
  same = h.same;
  heap = eh ∙ h.heap ∙ ap length p;
  stack = es ∙ h.stack ∙ ap length q;
  content = subst (λ t. Content b H' t) q (subst (λ t. Content b t S) p h.content);
}

pub Ensures-map :
    {A : Type 0} {k : Frame} {m n : ℕ} {P Q : A → Type 0} {r : Write A}
    → Ensures k m P r
    → m ≡ n
    → ((a : A) → P a → Q a)
    → Ensures k n Q r
Ensures-map {k} {n} {P} {Q} {r} p e f = record {
  post = λ room. Post-map k n P Q r (subst (λ t. Ensures k t P r) e p) room f;
}
  where
    Post-map :
        {A : Type 0} (k : Frame) (n : ℕ) (P Q : A → Type 0) (r : Write A)
        → Ensures k n P r
        → Room k n
        → ((a : A) → P a → Q a)
        → Post k n Q r
    Post-map k n P Q (ok a) p room f = ((p.post room).0, f a (p.post room).1)
    Post-map k n P Q (err e) p room f = p.post room
    Post-map k n P Q panic p room f = p.post room
