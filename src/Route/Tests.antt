-- ===== src/Route/Tests.antt =====
-- Route data on concrete templates and records, with a platform whose percent codec keeps the text.
use effect_frame.Base.{
  ◌≡◌, refl, String, ◌==◌, if◌then◌else◌, Option, none, true, false, some, List, [], ◌∷◌, find?,
  All,
}
use mathlib.Core.Option
use effect_frame.Route.{
  Platform, Part, literal, segment, tail, PathValue, one, many, Field, get, put, put_plain,
  SearchField, EncodedValue, items, text_fault, segment_fault, decode_segment, decode_all,
  match_parts, slice_from, match_prefix, match_path, print_path, encode_array_value,
  decode_array_value, encode_array_values, decode_array_values, collect, decode_fields,
  encode_fields,
}
use effect_frame.Route.Paths.{match-print_path, IsPercentCodec}
use effect_frame.Route.Search.{decode-encode_fields}

unfoldable route : Unit {0}
unfolding get put put_plain find? text_fault segment_fault decode_segment decode_all match_parts
    slice_from match_prefix match_path print_path encode_array_value decode_array_value
    encode_array_values decode_array_values collect
route = tt

abbrev plain : Platform
plain = record {
  encode_component = λ s. s;
  decode_component = λ s. some s;
  has_surrogate = λ _. false;
}

plain-IsPercentCodec : IsPercentCodec plain
plain-IsPercentCodec s h = refl

-- /files/:owner/:path*
abbrev files : List Part
files = literal "files" ∷ segment "owner" ∷ tail "path" ∷ []

abbrev doc : List (Field PathValue)
doc =
    record { key = "path"; value = many ("a" ∷ "b" ∷ []) }
    ∷ record { key = "owner"; value = one "me" }
    ∷ []

match-print_path_example :
    Option.map
      (λ found. get found "path")
      (match_path plain files ("files" ∷ "me" ∷ "a" ∷ "b" ∷ []))
    ≡ some (some (many ("a" ∷ "b" ∷ [])))
unfolding route
match-print_path_example =
    match-print_path plain plain-IsPercentCodec files doc ("files" ∷ "me" ∷ "a" ∷ "b" ∷ []) "path"
      (refl, (("me", refl, refl), (("a" ∷ "b" ∷ [], refl, refl), refl))) refl refl

-- A param named `__proto__` matches and is lost.
lost_param :
    Option.map
      (λ found. get found "__proto__")
      (match_path plain (segment "__proto__" ∷ []) ("me" ∷ []))
    ≡ some none
unfolding route
lost_param = refl

abbrev filters : List SearchField
filters =
    record { decoded_name = "tags"; name = "tags"; array = true }
    ∷ record { decoded_name = "page"; name = "page"; array = false }
    ∷ []

abbrev filter_value : List (Field EncodedValue)
filter_value = record { key = "tags"; value = items [] } ∷ []

-- A plain object's prototype.
abbrev inherited : String → Option String
inherited name = if name == "toString" then some "function toString() { [native code] }" else none

decode-encode_fields_example :
    All
      (λ field.
        get (decode_fields filters (encode_fields inherited filters filter_value)) field.name
        ≡ get filter_value field.name)
      filters
unfolding route
decode-encode_fields_example =
    decode-encode_fields inherited filters filter_value ((refl, tt), (tt, tt)) (tt, (tt, tt))
      (tt, (refl, tt))

-- An absent field that is named as a method of the prototype is printed.
printed_method :
    encode_fields inherited
      (record { decoded_name = "toString"; name = "toString"; array = false } ∷ [])
      []
    ≡ record { key = "toString"; value = "function toString() { [native code] }" ∷ [] } ∷ []
unfolding route
printed_method = refl
