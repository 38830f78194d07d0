-- ===== src/Lib.antt =====
-- Alkahest: a zero-overhead serialization library. A formula says how a type of values is laid out;
-- `Serialize` writes a value of a formula into a buffer and `Deserialize` reads it from a byte slice.
-- A buffer is one slice of bytes with two ends in use: the heap grows from the front and the stack
-- from the back. A value's own bytes go to the stack; what it refers to goes to the heap, from where
-- it is found by an address, counted from the start, and a size.
--
-- Which file models what:
--   Formula, Sizes, Size      the constants of a formula and their arithmetic (src/formula.rs), `Sizes`
--                             (src/serialize.rs), `SIZE_STACK` and the truncation to it (src/size.rs)
--   Buffer                    the trait `Buffer` and its five implementations (src/buffer.rs)
--   Serialize                 the trait `Serialize`, `write_field`, `write_ref`, `write_reference` and the
--                             entry points (src/serialize.rs)
--   Deserialize               `Deserializer` and its methods, and the entry points (src/deserialize.rs)
--   Reference, Primitive, Tuple, Optional
--                             the formulas of src/reference.rs, src/primitive.rs, src/size.rs,
--                             src/bytes.rs, src/str.rs, src/tuple.rs and src/option.rs
--   Slice, Array, Vector      src/slice.rs, src/array.rs, src/vec.rs, src/vec_deque.rs, src/string.rs, the
--                             hint of src/iter.rs, and the iterator of src/deserialize.rs that a vector
--                             is read by
--   Packet, Vlq               src/packet.rs, src/vlq.rs
--   DeIter                    the iterator of src/deserialize.rs with the calls that move it from both ends
--   Lazy                      src/lazy.rs, src/skip.rs and src/as.rs
--   InPlace                   the reads of all these formulas that update a value, and their entry points
--   Derive                    what the macros of proc/src/formula.rs, proc/src/serialize.rs and
--                             proc/src/deserialize.rs generate for a struct and for an enum
--   Schema                    the formulas that are built from those above, as one data type
--   Safety                    the readers on bytes that nothing is known of
-- Outcome is the result of a call: `Ok`, `Err`, or a panic. Codec gathers what a generic function takes
-- for one formula and type. Tests runs the theorems at concrete values.
--
-- How the parts meet. `Buffer.Holds` is what a buffer stands for, a heap and a stack of bytes, for all
-- five implementations at once, and each method is a change of it. On that,
-- `Serialize.Wire` states the contract of a `Serialize` implementation: which bytes are an image of a
-- value at an address (`WireFormat`), and that `serialize` puts one into every buffer that has room
-- (`IsWriter`); `Deserialize.Reads` states that an image is read back (`IsReader`), and `Codec.IsCodec`
-- joins them. The entry points and packets are stated for every codec with that contract, and the
-- contract of a formula rests on the contracts of those that it is made of; `Schema` joins them to one
-- statement for all formulas. `Safety.IsSafe` is the other half, for input that no writer has written.
--
-- How the code corresponds. `&mut Sizes` and the buffer are passed in and returned. A type with
-- `Formula`, `Serialize` and `Deserialize` is a record of functions. The slice that `reserve_heap`
-- lends is a list that is written back where the code drops the borrow. Integers are natural numbers;
-- a `usize` does not overflow, since every size and address in a theorem is bounded by what a
-- `FixedUsizeType` holds, and a platform's `usize` is taken to hold every `FixedUsizeType`. `SIZE_STACK`
-- is 4, the default, and proofs never look at the number. The profile is the one with debug
-- assertions: a failed assertion, a subtraction below zero and an index out of range are panics.
-- Padding is whatever the buffer held, as outside the crate's tests. `Vlq` runs its loops for the 63
-- rounds that the code allows, which is enough for every number of 63 bytes; its types have at most 16.
-- The validity of UTF-8 is a parameter.
--
-- An iterator that is serialized is the list of its items, and reading by an iterator is a recursion
-- on `upper`, which bounds the number of items in the code too.
--
-- A `size_hint` is an `Option` here and cannot panic: the debug assertion of `field_size_hint`, that the
-- hint of a sized field is within its maximum, is `hint_asserted` beside it and no part of the hint.
-- Memory is taken to be enough: the capacity that the reader of a vector reserves,
-- `Vec::with_capacity(lower)`, is left out, though for elements whose maximum is 0 that bound is a
-- number from the input.
--
-- Not modelled: the wrappers of iterators and `deserialize_extend_iter` in src/iter.rs, the widening
-- conversions of src/primitive.rs, the reading of an array into a vector, what a failed in-place read
-- leaves behind, and of the macros in proc/ the generated in-place reads, a struct that is written as a
-- variant of an enum, and the attributes and generic bounds, which the compiler checks.
-- src/bincoded.rs is left out, since it calls the `bincode` crate.
pub mod Prelude
pub mod Outcome
pub mod Formula
pub mod Sizes
pub mod Buffer
pub mod Size
pub mod Serialize
pub mod Deserialize
pub mod Codec
pub mod Reference
pub mod Primitive
pub mod Tuple
pub mod Optional
pub mod Slice
pub mod Array
pub mod Vector
pub mod Packet
pub mod Vlq
pub mod Safety
pub mod DeIter
pub mod InPlace
pub mod Lazy
pub mod Derive
pub mod Schema
pub mod Tests
