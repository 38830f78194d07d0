-- ===== src/Vector.antt =====
-- src/vec.rs, src/vec_deque.rs and src/string.rs: `Vec<F>` and `VecDeque<F>` are `Ref<[F]>`, and
-- `String` is `Ref<str>`, each with the same body. A deque is the list of its items.
pub mod Laws
use alkahest.Prelude.{Bool, List}
use alkahest.Prelude.Words.{Bytes}
use alkahest.Codec.{Codec}
use alkahest.Reference.{ref}
use alkahest.Slice.{slice}
use alkahest.Primitive.{str}

abbrev pub vec : {T : Type 0} → Codec T → Codec (List T)
vec c = ref (slice c)

abbrev pub vec_deque : {T : Type 0} → Codec T → Codec (List T)
vec_deque c = ref (slice c)

abbrev pub string : (Bytes → Bool) → Codec Bytes
string is_utf8 = ref (str is_utf8)
