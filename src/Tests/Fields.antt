-- ===== src/Tests/Fields.antt =====
-- Fields, references and options at concrete values.
use alkahest.Prelude.{◌+◌, ◌<◌, ◌≡◌, refl, true, false, none, some, arith, [], ◌∷◌, ◌++◌}
use alkahest.Prelude.Words.{Bytes, to_le_bytes, length-to_le_bytes}
use alkahest.Outcome.{ok}
use alkahest.Formula.{usize_limit, size_stack}
use alkahest.Sizes.{sizes_zero, total}
use alkahest.Buffer.{Buffer, checked_fixed_buffer}
use alkahest.Buffer.Holds.{checked_frame, Holds, Post}
use alkahest.Serialize.{write_field, write_ref}
use alkahest.Serialize.Wire.{Written}
use alkahest.Serialize.Wire.Field.{field, field_len, write_field-Post}
use alkahest.Serialize.Wire.Reference.{Referred, write_ref-Post}
use alkahest.Serialize.Wire.Address.{reference_bytes}
use alkahest.Deserialize.{Deserializer, read_value, deref}
use alkahest.Deserialize.Reads.{at_end}
use alkahest.Deserialize.Fields.{read_value-field, read_value-last}
use alkahest.Deserialize.References.{deref_lem}
use alkahest.Primitive.{int, bytes}
use alkahest.Primitive.Laws.{int_wire, int-IsCodec, bytes_wire, bytes-IsCodec}
use alkahest.Optional.{option_serialize, option_deserialize}
use alkahest.Optional.Laws.{option_wire, option_serialize-Post, option_reads}
use alkahest.Tests.{room}

abbrev hi : Bytes
hi = 104 ∷ 105 ∷ []

abbrev output : Buffer
output = checked_fixed_buffer room

output-Holds : Holds (checked_frame 16) output sizes_zero [] []
output-Holds = record { same = refl; heap = refl; stack = refl; content = (room, refl) }

field-small : total sizes_zero + (0 + field_len none false 2) < usize_limit
unfolding usize_limit size_stack
field-small = omega arith

-- A string that is not the last field.
write_field_example :
    Post
      (checked_frame 16)
      (total sizes_zero + (0 + field_len none false 2))
      (Written (field bytes.formula false bytes_wire) hi sizes_zero [] [] (checked_frame 16))
      (write_field bytes.formula bytes.ser hi sizes_zero output false)
write_field_example =
    write_field-Post bytes.ser bytes_wire bytes-IsCodec.writer bytes.formula false hi
      (checked_frame 16) output sizes_zero [] [] bytes-IsCodec.sized tt output-Holds
      (record { within = tt; small = field-small })

ref-small : total sizes_zero + (0 + 2) < usize_limit
unfolding usize_limit size_stack
ref-small = omega arith

write_ref_example :
    Post
      (checked_frame 16)
      (total sizes_zero + (0 + 2))
      (Referred bytes_wire hi sizes_zero [] [] (checked_frame 16))
      (write_ref bytes.formula bytes.ser hi sizes_zero output)
write_ref_example =
    write_ref-Post bytes.formula bytes.ser bytes_wire bytes-IsCodec.writer bytes-IsCodec.sized hi
      (checked_frame 16) output sizes_zero [] [] tt output-Holds
      (record { within = tt; small = ref-small })

read_value-field_example :
    read_value (int 2).formula (int 2).de (at_end (1 ∷ []) (to_le_bytes 2 300) 1) false
    ≡ ok (record { input = 1 ∷ []; stack = 1 }, 300)
read_value-field_example =
    read_value-field (int 2).formula (int 2).de (int_wire 2) (int-IsCodec 2).reader 300 (1 ∷ []) []
      [] (to_le_bytes 2 300) (1 ∷ []) 1 (omega arith)
      ([], to_le_bytes 2 300, (refl, refl), refl, length-to_le_bytes 2 300) refl

read_value-last_example :
    (de : Deserializer) × (read_value bytes.formula bytes.de (at_end (1 ∷ []) hi 0) true
      ≡ ok (de, hi))
read_value-last_example =
    read_value-last bytes.formula bytes.de bytes_wire bytes-IsCodec.reader hi (1 ∷ []) [] [] hi
      (1 ∷ []) 0 bytes-IsCodec.sized tt (refl, refl) refl (omega arith) (λ n. refl)

small_number : 2 < usize_limit
unfolding usize_limit size_stack
small_number = omega arith

deref_example :
    deref bytes.formula (at_end (hi ++ (9 ∷ [])) (reference_bytes false 2 2) 0)
    ≡ ok (record { input = hi; stack = 2 })
deref_example =
    deref_lem bytes.formula 2 2 small_number small_number (λ e. absurd (cc e)) hi (9 ∷ []) 0 refl
      (omega arith)

option-small : total sizes_zero + (0 + (2 + 1)) < usize_limit
unfolding usize_limit size_stack
option-small = omega arith

option_serialize_example :
    Post
      (checked_frame 16)
      (total sizes_zero + (0 + (2 + 1)))
      (Written (option_wire bytes_wire) (some hi) sizes_zero [] [] (checked_frame 16))
      (option_serialize bytes.formula bytes.ser (some hi) sizes_zero output)
option_serialize_example =
    option_serialize-Post bytes bytes_wire bytes-IsCodec (some hi) (checked_frame 16) output
      sizes_zero [] [] tt output-Holds (record { within = tt; small = option-small })

option_reads_example :
    option_deserialize bytes.formula bytes.de (at_end (5 ∷ []) (104 ∷ 105 ∷ 1 ∷ []) 0)
    ≡ ok (some hi)
option_reads_example =
    option_reads bytes bytes_wire bytes-IsCodec (some hi) (5 ∷ []) [] [] (104 ∷ 105 ∷ 1 ∷ [])
      (5 ∷ []) 0 tt (hi, (refl, refl), refl) refl (omega arith) (λ n. refl)
