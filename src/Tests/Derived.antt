-- ===== src/Tests/Derived.antt =====
-- The generated code of a struct `{ id: u32, name: Ref<Bytes> }`, and of an enum with three variants:
-- one with a number, one with no field and one with a name.
use alkahest.Prelude.{ℕ, ◌≡◌, ◌≢◌, true, none, some}
use alkahest.Prelude.Words.{Bytes}
use alkahest.Codec.{IsCodec}
use alkahest.Primitive.{int, bytes}
use alkahest.Primitive.Laws.{int_wire, int-IsCodec}
use alkahest.Safety.Formulas.{Safe, int-Safe, ref-Safe, bytes-Safe}
use alkahest.Derive.{
  Fields, nil, cons, Variants, no_more, variant, fields_max, fields_exact, derived_struct,
  derived_enum,
}
use alkahest.Derive.Images.{Lawful, fields_wire}
use alkahest.Derive.Structs.{derived_struct-IsCodec}
use alkahest.Derive.Choices.{AllLawful, enum_wire}
use alkahest.Derive.Enums.{derived_enum-IsCodec}
use alkahest.Derive.Hostile.{EverySafe, AllSafe, derived_enum-Safe}
use alkahest.Tests.{name, name_wire, name-IsCodec}

abbrev person : Fields
person = cons ℕ (int 4) (cons Bytes name nil)

person-Lawful : Lawful person
unfolding Lawful
person-Lawful = (int_wire 4, int-IsCodec 4, (name_wire, name-IsCodec, tt))

person-sized : fields_exact true person ≡ true → fields_max (some 0) person ≢ none
unfolding fields_max
person-sized x e = absurd (cc e)

derived_struct-IsCodec_example : IsCodec (derived_struct person) (fields_wire person person-Lawful)
derived_struct-IsCodec_example = derived_struct-IsCodec person person-Lawful person-sized

abbrev event : Variants
event = variant (cons ℕ (int 4) nil) (variant nil (variant (cons Bytes name nil) no_more))

event-Lawful : AllLawful event
unfolding AllLawful Lawful
event-Lawful = ((int_wire 4, int-IsCodec 4, tt), (tt, ((name_wire, name-IsCodec, tt), tt)))

derived_enum-IsCodec_example : IsCodec (derived_enum event) (enum_wire event event-Lawful)
derived_enum-IsCodec_example = derived_enum-IsCodec event event-Lawful

event-EverySafe : EverySafe event
unfolding EverySafe AllSafe
event-EverySafe = ((int-Safe 4, tt), (tt, ((ref-Safe bytes bytes-Safe, tt), tt)))

derived_enum-Safe_example : Safe (derived_enum event)
derived_enum-Safe_example = derived_enum-Safe event event-EverySafe
