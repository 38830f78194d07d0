-- ===== src/Tests/Schemas.antt =====
-- A schema, `Ref` of a slice of `(u16, String)`, and what its readers do with bytes that were not
-- written by its writers.
use alkahest.Prelude.{
  ◌≤◌, ◌<◌, ◌≡◌, ◌≢◌, Bool, true, false, ◌&&◌, ltb, some_inj, arith, [], ◌∷◌, ◌⊎◌, length,
}
use alkahest.Prelude.Words.{Bytes}
use alkahest.Outcome.{panic}
use alkahest.Formula.{reference_size, size_stack}
use alkahest.Codec.{IsCodec}
use alkahest.Deserialize.{Deserializer, deserialize_with_size, read_value}
use alkahest.Packet.{read_packet}
use alkahest.Primitive.{int}
use alkahest.Safety.{Returns}
use alkahest.Safety.Methods.{Shrunk, read_value-Returns}
use alkahest.Safety.Formulas.{int-Safe}
use alkahest.Schema.{Schema, codec, integer, text, last_field, field, boxed, elements}
use alkahest.Schema.Laws.{IsLawful, wire, codec-IsCodec}
use alkahest.Schema.Hostile.{deserialize_with_size-cases, read_packet-Returns}

abbrev is_ascii : Bytes → Bool
is_ascii [] = true
is_ascii (x ∷ r) = ltb x 128 && is_ascii r

abbrev rows : Schema
rows = boxed (elements (field (integer 2) (last_field (boxed text))))

rows-IsLawful : IsLawful is_ascii rows
unfolding IsLawful codec reference_size size_stack
rows-IsLawful = ((tt, tt), λ e. absurd (omega (arith, some_inj e)))

codec-IsCodec_example : IsCodec (codec is_ascii rows) (wire is_ascii rows)
codec-IsCodec_example = codec-IsCodec is_ascii rows rows-IsLawful

-- An address that lies behind the input.
abbrev forged : Bytes
forged = 200 ∷ 0 ∷ 0 ∷ 0 ∷ 0 ∷ 0 ∷ 0 ∷ 0 ∷ []

deserialize_with_size_example :
    ((8 ≤ length forged)
      × (deserialize_with_size (codec is_ascii rows).formula (codec is_ascii rows).de forged 8
          ≢ panic))
    ⊎ ((length forged < 8)
        × (deserialize_with_size (codec is_ascii rows).formula (codec is_ascii rows).de forged 8
            ≡ panic))
deserialize_with_size_example = deserialize_with_size-cases is_ascii rows forged 8

read_packet-Returns_example :
    Returns
      (λ (v, n). n ≤ length forged)
      (read_packet (codec is_ascii rows).formula (codec is_ascii rows).de forged)
read_packet-Returns_example = read_packet-Returns is_ascii rows forged

abbrev five : Deserializer
five = record { input = 1 ∷ 2 ∷ 3 ∷ 4 ∷ 5 ∷ 6 ∷ []; stack = 5 }

read_value-Returns_example :
    Returns (λ (de', v). Shrunk five de') (read_value (int 4).formula (int 4).de five false)
read_value-Returns_example =
    read_value-Returns (int 4).formula (int 4).de (int-Safe 4) five false
      (record { within = omega arith })
