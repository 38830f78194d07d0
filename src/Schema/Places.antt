-- ===== src/Schema/Places.antt =====
-- The in-place reads of a schema, and packets that are read in place: src/packet.rs.
use alkahest.Prelude.{◌≡◌, sym, ◌∙◌, ◌++◌, Bool, length, refl}
use alkahest.Prelude.Words.{Bytes}
use alkahest.Outcome.{ok}
use alkahest.Codec.{Codec, IsCodec}
use alkahest.Packet.{read_packet}
use alkahest.Packet.Laws.{PacketBytes}
use alkahest.Packet.RoundTrip.{read_packet_lem}
use alkahest.InPlace.{
  InPlace, overwrite, last_in_place, cons_in_place, option_in_place, ref_in_place, array_in_place,
  read_packet_in_place,
}
use alkahest.InPlace.Laws.{at_place, IsPlacer}
use alkahest.InPlace.Formulas.{
  overwrite-IsPlacer, last-IsPlacer, cons-IsPlacer, option-IsPlacer, ref-IsPlacer, array-IsPlacer,
}
use alkahest.Schema.{Schema, Value, codec}
use alkahest.Schema.Laws.{IsLawful, wire, codec-IsCodec}

module _ (is_utf8 : Bytes → Bool) where
  unfoldable pub in_place : (s : Schema) → InPlace (Value s)
  unfolding Value
  in_place (Schema.last_field s) = record {
    in_place = last_in_place (codec is_utf8 s).formula (in_place s);
  }
  in_place (Schema.field s r) = record {
    in_place = cons_in_place (codec is_utf8 s).formula (in_place s) (in_place r);
  }
  in_place (Schema.optional s) = record {
    in_place = option_in_place (codec is_utf8 s).formula (in_place s) (codec is_utf8 s).de;
  }
  in_place (Schema.boxed s) = record {
    in_place = ref_in_place (codec is_utf8 s).formula (in_place s);
  }
  in_place (Schema.elements_of n s) = record {
    in_place = array_in_place (codec is_utf8 s).formula (in_place s);
  }
  in_place (Schema.integer w) = overwrite (codec is_utf8 (Schema.integer w)).de
  in_place Schema.boolean = overwrite (codec is_utf8 Schema.boolean).de
  in_place Schema.word = overwrite (codec is_utf8 Schema.word).de
  in_place Schema.raw_bytes = overwrite (codec is_utf8 Schema.raw_bytes).de
  in_place Schema.text = overwrite (codec is_utf8 Schema.text).de
  in_place Schema.unit = overwrite (codec is_utf8 Schema.unit).de
  in_place (Schema.elements s) = overwrite (codec is_utf8 (Schema.elements s)).de

  overwritten :
      (s : Schema)
      → IsLawful is_utf8 s
      → IsPlacer (codec is_utf8 s).formula (overwrite (codec is_utf8 s).de) (wire is_utf8 s)
  overwritten s h =
      overwrite-IsPlacer (codec is_utf8 s) (wire is_utf8 s) (codec-IsCodec is_utf8 s h)

  pub in_place-IsPlacer :
      (s : Schema)
      → IsLawful is_utf8 s
      → IsPlacer (codec is_utf8 s).formula (in_place s) (wire is_utf8 s)
  unfolding in_place wire codec IsLawful Value
  in_place-IsPlacer (Schema.last_field s) h =
      last-IsPlacer (codec is_utf8 s) (wire is_utf8 s) (codec-IsCodec is_utf8 s h) (in_place s)
        (in_place-IsPlacer s h)
  in_place-IsPlacer (Schema.field s r) (h, h') =
      cons-IsPlacer (codec is_utf8 s) (wire is_utf8 s) (codec-IsCodec is_utf8 s h) (in_place s)
        (in_place-IsPlacer s h) (codec is_utf8 r) (wire is_utf8 r) (codec-IsCodec is_utf8 r h')
        (in_place r) (in_place-IsPlacer r h')
  in_place-IsPlacer (Schema.optional s) (h, hinted) =
      option-IsPlacer (codec is_utf8 s) (wire is_utf8 s) (codec-IsCodec is_utf8 s h) (in_place s)
        (in_place-IsPlacer s h)
  in_place-IsPlacer (Schema.boxed s) h =
      ref-IsPlacer (codec is_utf8 s) (wire is_utf8 s) (codec-IsCodec is_utf8 s h) (in_place s)
        (in_place-IsPlacer s h)
  in_place-IsPlacer (Schema.elements_of n s) h =
      array-IsPlacer (codec is_utf8 s) (wire is_utf8 s) (codec-IsCodec is_utf8 s h) (in_place s)
        (in_place-IsPlacer s h) n
  in_place-IsPlacer (Schema.integer w) h = overwritten (Schema.integer w) h
  in_place-IsPlacer Schema.boolean h = overwritten Schema.boolean h
  in_place-IsPlacer Schema.word h = overwritten Schema.word h
  in_place-IsPlacer Schema.raw_bytes h = overwritten Schema.raw_bytes h
  in_place-IsPlacer Schema.text h = overwritten Schema.text h
  in_place-IsPlacer Schema.unit h = overwritten Schema.unit h
  in_place-IsPlacer (Schema.elements s) h = overwritten (Schema.elements s) h

packet_at_place :
    {T : Type 0} (c : Codec T) (p : InPlace T) (place : T) (input : Bytes)
    → read_packet_in_place c.formula p place input ≡ read_packet c.formula (at_place p place) input
unfolding read_packet_in_place read_packet
packet_at_place c p place input = refl

-- For every schema whose options are of values with no maximum or the maximum 0, and whose slices
-- are of elements whose maximum is not 0, and every place that holds a value of the type:
-- `read_packet_in_place` on the bytes of a packet, whatever follows them, puts the value of the
-- packet into the place, and returns what `read_packet` returns.
pub read_packet_in_place-read_packet :
    (is_utf8 : Bytes → Bool) (s : Schema)
    → IsLawful is_utf8 s
    → (place v : Value s) (bytes rest : Bytes) → (wire is_utf8 s).IsValue place
    → (wire is_utf8 s).IsValue v
    → PacketBytes (codec is_utf8 s).formula (wire is_utf8 s) v bytes
    → (read_packet_in_place (codec is_utf8 s).formula (in_place is_utf8 s) place (bytes ++ rest)
        ≡ ok (v, length bytes))
      × (read_packet_in_place (codec is_utf8 s).formula (in_place is_utf8 s) place (bytes ++ rest)
          ≡ read_packet (codec is_utf8 s).formula (codec is_utf8 s).de (bytes ++ rest))
read_packet_in_place-read_packet is_utf8 s h place v bytes rest here val q =
    let c = codec is_utf8 s in
    let laws = codec-IsCodec is_utf8 s h in
    let p = in_place is_utf8 s in
    let placed : IsCodec (record c { de = at_place p place }) (wire is_utf8 s) = record {
      sized = laws.sized;
      writer = laws.writer;
      reader = in_place-IsPlacer is_utf8 s h place here;
    } in
    let read =
      packet_at_place c p place (bytes ++ rest)
      ∙ read_packet_lem (record c { de = at_place p place }) (wire is_utf8 s) placed v val bytes
          rest q in
    (read, read ∙ sym (read_packet_lem c (wire is_utf8 s) laws v val bytes rest q))
