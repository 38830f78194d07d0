-- ===== src/Buffer.antt =====
-- src/buffer.rs: the `Buffer` trait and its five implementations. A buffer is one value of a data
-- type with a constructor for each implementation; a method returns the new buffer. A byte slice is
-- a list. The heap grows from the front and the stack from the back.
pub mod Holds
pub mod Slices
pub mod Laws
pub mod Over
pub mod Heap
pub mod Reserve
use alkahest.Prelude.{
  ℕ, ◌+◌, ◌-◌, Bool, true, false, not, ◌++◌, [], ltb, leb, if◌then◌else◌, length, take, drop,
  replicate, ◌&&◌,
}
use alkahest.Prelude.Words.{Bytes}
use alkahest.Outcome.{Outcome, ok, err, panic, ◌>>=◌, ◌>>◌, assert, checked_sub}

pub data BufferExhausted : Type 0 where
  buffer_exhausted : BufferExhausted

abbrev pub Write : Type 0 → Type 0
Write = Outcome BufferExhausted

-- `self[at..][..bytes.len()].copy_from_slice(bytes)`
unfoldable pub copy_from_slice : ℕ → Bytes → Bytes → Write Bytes
copy_from_slice at bytes buf =
    if leb (at + length bytes) (length buf)
    then ok (take at buf ++ (bytes ++ drop (at + length bytes) buf))
    else panic

-- `self.copy_within(start..end, dest)`
unfoldable pub copy_within : ℕ → ℕ → ℕ → Bytes → Write Bytes
copy_within start end dest buf =
    if leb start end && (leb end (length buf) && leb (dest + (end - start)) (length buf))
    then ok
        (take dest buf ++ (take (end - start) (drop start buf) ++ drop (dest + (end - start)) buf))
    else panic

-- `Vec::resize(len, 0)`
unfoldable pub resize : ℕ → Bytes → Bytes
resize len buf = take len buf ++ replicate (len - length buf) 0

-- The slice that a buffer writes to, `at` bytes before its stack.
unfoldable pub write_before_stack : Bytes → ℕ → Bytes → Write Bytes
unfolding checked_sub
write_before_stack buf stack bytes = do
  rest ← checked_sub (length buf) stack
  at ← checked_sub rest (length bytes)
  copy_from_slice at bytes buf

unfoldable pub move_in_slice : Bytes → ℕ → ℕ → ℕ → Write Bytes
unfolding checked_sub
move_in_slice buf heap stack len = do
  start ← checked_sub (length buf) stack
  copy_within start (start + len) heap buf

-- `&mut self[..end]`
unfoldable pub slice_to : ℕ → Bytes → Write Bytes
slice_to end buf = if leb end (length buf) then ok (take end buf) else panic

-- `*self.exhausted` after the check that the methods of `MaybeFixedBuffer` begin with.
unfoldable pub check_exhausted : Bytes → Bool → ℕ → ℕ → ℕ → Write Bool
check_exhausted buf true heap stack len = ok true
check_exhausted buf false heap stack len = do
  assert (leb (heap + stack) (length buf))
  ok (ltb (length buf - heap - stack) len)

-- `VecBuffer::do_reserve`
unfoldable pub do_reserve : Bytes → ℕ → ℕ → ℕ → Write Bytes
unfolding checked_sub resize
do_reserve buf heap stack additional = do
  let old_len = length buf
  let grown = resize (heap + stack + additional) buf
  from ← checked_sub old_len stack
  to ← checked_sub (length grown) stack
  copy_within from old_len to grown

-- `VecBuffer::reserve`
unfoldable pub reserve : Bytes → ℕ → ℕ → ℕ → Write Bytes
reserve buf heap stack additional =
    if ltb (length buf - heap - stack) additional
    then do_reserve buf heap stack additional
    else ok buf

pub data Buffer : Type 0 where
  dry_buffer : Buffer
  checked_fixed_buffer : Bytes → Buffer
  slice_buffer : Bytes → Buffer
  maybe_fixed_buffer : Bytes → Bool → Buffer
  vec_buffer : Bytes → Buffer

unfoldable pub write_stack : Buffer → ℕ → ℕ → Bytes → Write Buffer
write_stack dry_buffer heap stack bytes = ok dry_buffer
write_stack (checked_fixed_buffer buf) heap stack bytes = do
  assert (leb (heap + stack) (length buf))
  if ltb (length buf - heap - stack) (length bytes)
      then err buffer_exhausted
      else (write_before_stack buf stack bytes >>= λ buf'. ok (checked_fixed_buffer buf'))
write_stack (slice_buffer buf) heap stack bytes = do
  assert (leb (heap + stack) (length buf))
  buf' ← write_before_stack buf stack bytes
  ok (slice_buffer buf')
write_stack (maybe_fixed_buffer buf e) heap stack bytes = do
  exhausted ← check_exhausted buf e heap stack (length bytes)
  if exhausted
      then ok (maybe_fixed_buffer buf true)
      else (write_before_stack buf stack bytes >>= λ buf'. ok (maybe_fixed_buffer buf' false))
write_stack (vec_buffer buf) heap stack bytes = do
  assert (leb (heap + stack) (length buf))
  grown ← reserve buf heap stack (length bytes)
  buf' ← write_before_stack grown stack bytes
  ok (vec_buffer buf')

-- Outside the crate's own tests the padding is not filled: it keeps what the buffer held.
unfoldable pub pad_stack : Buffer → ℕ → ℕ → ℕ → Write Buffer
pad_stack dry_buffer heap stack len = ok dry_buffer
pad_stack (checked_fixed_buffer buf) heap stack len = do
  assert (leb (heap + stack) (length buf))
  if ltb (length buf - heap - stack) len
      then err buffer_exhausted
      else ok (checked_fixed_buffer buf)
pad_stack (slice_buffer buf) heap stack len = do
  assert (leb (heap + stack) (length buf))
  assert (leb len (length buf - heap - stack))
  ok (slice_buffer buf)
pad_stack (maybe_fixed_buffer buf e) heap stack len = do
  exhausted ← check_exhausted buf e heap stack len
  ok (maybe_fixed_buffer buf exhausted)
pad_stack (vec_buffer buf) heap stack len = do
  assert (leb (heap + stack) (length buf))
  grown ← reserve buf heap stack len
  ok (vec_buffer grown)

unfoldable pub move_to_heap : Buffer → ℕ → ℕ → ℕ → Write Buffer
move_to_heap dry_buffer heap stack len = ok dry_buffer
move_to_heap (checked_fixed_buffer buf) heap stack len = do
  assert (leb (heap + stack) (length buf))
  buf' ← move_in_slice buf heap stack len
  ok (checked_fixed_buffer buf')
move_to_heap (slice_buffer buf) heap stack len = do
  assert (leb len stack)
  assert (leb (heap + stack) (length buf))
  buf' ← move_in_slice buf heap stack len
  ok (slice_buffer buf')
move_to_heap (maybe_fixed_buffer buf true) heap stack len = do
  assert (leb len stack)
  ok (maybe_fixed_buffer buf true)
move_to_heap (maybe_fixed_buffer buf false) heap stack len = do
  assert (leb len stack)
  assert (leb (heap + stack) (length buf))
  buf' ← move_in_slice buf heap stack len
  ok (maybe_fixed_buffer buf' false)
move_to_heap (vec_buffer buf) heap stack len = do
  assert (leb (heap + stack) (length buf))
  assert (leb len stack)
  buf' ← move_in_slice buf heap stack len
  ok (vec_buffer buf')

-- The buffer, and the slice of its front that the caller may write to.
unfoldable pub reserve_heap : Buffer → ℕ → ℕ → ℕ → Write (Buffer × Bytes)
reserve_heap dry_buffer heap stack len = ok (dry_buffer, [])
reserve_heap (checked_fixed_buffer buf) heap stack len = do
  assert (leb (heap + stack) (length buf))
  if ltb (length buf - heap - stack) len
      then err buffer_exhausted
      else (slice_to (heap + len) buf >>= λ region. ok (checked_fixed_buffer buf, region))
reserve_heap (slice_buffer buf) heap stack len = do
  assert (leb (heap + stack) (length buf))
  region ← slice_to (heap + len) buf
  ok (slice_buffer buf, region)
reserve_heap (maybe_fixed_buffer buf e) heap stack len = do
  exhausted ← check_exhausted buf e heap stack len
  if exhausted
      then ok (maybe_fixed_buffer buf true, [])
      else (slice_to (heap + len) buf >>= λ region. ok (maybe_fixed_buffer buf false, region))
reserve_heap (vec_buffer buf) heap stack len = do
  assert (leb (heap + stack) (length buf))
  grown ← reserve buf heap stack len
  region ← slice_to (heap + len) grown
  ok (vec_buffer grown, region)

-- What is written to the reserved slice is written to the buffer that it was borrowed from.
abbrev pub overwrite : Bytes → Bytes → Bytes
overwrite region buf = region ++ drop (length region) buf

unfoldable pub write_back : Buffer → Bytes → Buffer
write_back dry_buffer region = dry_buffer
write_back (checked_fixed_buffer buf) region = checked_fixed_buffer (overwrite region buf)
write_back (slice_buffer buf) region = slice_buffer (overwrite region buf)
write_back (maybe_fixed_buffer buf e) region = maybe_fixed_buffer (overwrite region buf) e
write_back (vec_buffer buf) region = vec_buffer (overwrite region buf)

-- The bytes behind a `&mut [u8]`.
unfoldable pub slice_bytes : Buffer → Bytes
slice_bytes (slice_buffer buf) = buf
slice_bytes (checked_fixed_buffer buf) = buf
slice_bytes (maybe_fixed_buffer buf e) = buf
slice_bytes (vec_buffer buf) = buf
slice_bytes dry_buffer = []
