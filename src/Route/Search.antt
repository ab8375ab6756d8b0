-- ===== src/Route/Search.antt =====
-- Search records of codec.ts: what `Route.search` prints reads back.
use effect_frame.Base.{
  ◌≡◌, refl, sym, ap, subst, ◌∙◌, inl, inr, Bool, true, false, Option, none, some, List, [], ◌∷◌,
  map, String, ◌==◌, eq_iff, eq_refl, arith, if◌then◌else◌, find?, All, Bool-cases,
}
use text.Mathlib.Text.{starts_with}
use text.Mathlib.TextEquality.{starts_with_iff}
use text.Mathlib.TextLemmas.{append_assoc, append_cancel_left}
use text.Mathlib.TextPositions.{slice-append_right, len-append}
use Prim.Native.String.{◌++◌ as ◌<>◌, slice, len}
use effect_frame.Mailbox.Valid.{eq_false_sym}
use effect_frame.Engine.{◌>>=◌}
use effect_frame.Route.{
  Field, get, put, put_some, SearchField, EncodedValue, scalar, items, encode_array_value,
  decode_array_value, encode_array_values, decode_array_values, collect, decoded_of, encoded_of,
  own_or_inherited, decode_fields, encode_fields, decoded_field, encoded_field,
}

if_true : {A : Type 0} (b : Bool) (x y : A) → b ≡ true → (if b then x else y) ≡ x
if_true b x y h = rw h refl

if_false : {A : Type 0} (b : Bool) (x y : A) → b ≡ false → (if b then x else y) ≡ y
if_false b x y h = rw h refl

-- A value that begins with the marker gains one, and begins with two.
array_value-marked :
    (value : String)
    → starts_with value "~" ≡ true
    → decode_array_value (encode_array_value value) ≡ value
unfolding decode_array_value encode_array_value
array_value-marked value h =
    let (t, is_t) = (starts_with_iff value "~").0 h in
    let twice : starts_with ("~" <> value) ("~" <> "~") ≡ true =
      (starts_with_iff ("~" <> value) ("~" <> "~")).1
        (t, append_assoc "~" "~" t ∙ ap (λ k. "~" <> k) is_t) in
    ap decode_array_value (if_true (starts_with value "~") ("~" <> value) value h)
    ∙ if_true (starts_with ("~" <> value) ("~" <> "~"))
        (slice ("~" <> value) 1 (len ("~" <> value))) ("~" <> value) twice
    ∙ ap (slice ("~" <> value) 1) (len-append "~" value)
    ∙ slice-append_right "~" value

array_value-plain :
    (value : String)
    → starts_with value "~" ≡ false
    → decode_array_value (encode_array_value value) ≡ value
unfolding decode_array_value encode_array_value
array_value-plain value h =
    ap decode_array_value (if_false (starts_with value "~") ("~" <> value) value h)
    ∙ (elim (Bool-cases (starts_with value ("~" <> "~"))) [
      | inl e ↦
          let (t, is_t) = (starts_with_iff value ("~" <> "~")).0 e in
          let begins : starts_with value "~" ≡ true =
            (starts_with_iff value "~").1 ("~" <> t, sym (append_assoc "~" "~" t) ∙ is_t) in
          absurd (cc)
      | inr e ↦ if_false (starts_with value ("~" <> "~")) (slice value 1 (len value)) value e
    ])

decode-encode_array_value : (value : String) → decode_array_value (encode_array_value value) ≡ value
decode-encode_array_value value = elim (Bool-cases (starts_with value "~")) [
  | inl e ↦ array_value-marked value e
  | inr e ↦ array_value-plain value e
]

map-encode :
    (values : List String) → map decode_array_value (map encode_array_value values) ≡ values
map-encode [] = refl
map-encode (value ∷ values) =
    ap (λ v. v ∷ map decode_array_value (map encode_array_value values))
      (decode-encode_array_value value)
    ∙ ap (λ vs. value ∷ vs) (map-encode values)

not_true : (b : Bool) → (b ≡ true → ⊥) → b ≡ false
not_true false h = refl
not_true true h = absurd (h refl)

-- An escaped value is never the marker of an empty array.
marked_value : (value : String) → ("~" <> value == "~") ≡ true → starts_with value "~" ≡ false
marked_value value e =
    let empty : value ≡ "" = append_cancel_left "~" value "" ((eq_iff ("~" <> value) "~").0 e) in
    subst (λ v. starts_with v "~" ≡ false) (sym empty) refl

encode-not-marker : (value : String) → (encode_array_value value == "~") ≡ false
unfolding encode_array_value
encode-not-marker value = elim (Bool-cases (starts_with value "~")) [
  | inl e ↦
      ap (λ v. v == "~") (if_true (starts_with value "~") ("~" <> value) value e)
      ∙ not_true ("~" <> value == "~") (λ h. absurd (cc (sym e ∙ marked_value value h)))
  | inr e ↦
      ap (λ v. v == "~") (if_false (starts_with value "~") ("~" <> value) value e)
      ∙ not_true (value == "~")
          (λ h. absurd (cc (sym e ∙ ap (λ v. starts_with v "~") ((eq_iff value "~").0 h))))
]

-- What the route codec writes for an array of search values reads back as the same array, the empty
-- array and values that begin with the marker included.
pub decode-encode_array_values :
    (values : List String) → decode_array_values (encode_array_values values) ≡ values
unfolding decode_array_values encode_array_values
decode-encode_array_values [] = refl
decode-encode_array_values (value ∷ []) =
    if_false (encode_array_value value == "~") []
      (decode_array_value (encode_array_value value) ∷ []) (encode-not-marker value)
    ∙ ap (λ v. v ∷ []) (decode-encode_array_value value)
decode-encode_array_values (value ∷ other ∷ values) = map-encode (value ∷ other ∷ values)

module _ {V : Type 0} where
  pub get-put_same :
      (fields : List (Field V)) (key : String) (value : V)
      → get (put fields key value) key ≡ some value
  unfolding get put find?
  get-put_same [] key value = rw (eq_refl key) refl
  get-put_same (field ∷ rest) key value = ground (arith, get-put_same rest key value)

  pub get-put_other :
      (fields : List (Field V)) (key other : String) (value : V)
      → (key == other) ≡ false
      → get (put fields key value) other ≡ get fields other
  unfolding get put find?
  get-put_other [] key other value h = rw h refl
  get-put_other (field ∷ rest) key other value h =
      ground (arith, get-put_other rest key other value h, eq_iff field.key key)

-- A key that no later field has.
abbrev IsOther : String → List SearchField → Type 0
IsOther key fields = All (λ field. (field.name == key) ≡ false) fields

-- No two fields have one name.
abbrev pub Distinct : List SearchField → Type 0
Distinct [] = Unit
Distinct (field ∷ rest) = IsOther field.name rest × Distinct rest

module _ {V : Type 0} (value_for : SearchField → Option V) where
  put_some-other :
      (written : List (Field V)) (name key : String) (v : Option V)
      → (name == key) ≡ false
      → get (put_some written name v) key ≡ get written key
  put_some-other written name key none h = refl
  put_some-other written name key (some value) h = get-put_other written name key value h

  put_some-same :
      (written : List (Field V)) (key : String) (v : Option V)
      → get written key ≡ none
      → get (put_some written key v) key ≡ v
  put_some-same written key none h = h
  put_some-same written key (some value) h = get-put_same written key value

  collect-other :
      (fields : List SearchField) (written : List (Field V)) (key : String)
      → IsOther key fields
      → get (collect value_for fields written) key ≡ get written key
  unfolding collect
  collect-other [] written key h = refl
  collect-other (field ∷ rest) written key h =
      collect-other rest (put_some written field.name (value_for field)) key h.1
      ∙ put_some-other written field.name key (value_for field) h.0

  abbrev Unwritten : List (Field V) → List SearchField → Type 0
  Unwritten written fields = All (λ field. get written field.name ≡ none) fields

  still-Unwritten :
      (written : List (Field V)) (field : SearchField) (rest : List SearchField)
      → IsOther field.name rest
      → Unwritten written rest
      → Unwritten (put_some written field.name (value_for field)) rest
  still-Unwritten written field [] other free = tt
  still-Unwritten written field (next ∷ rest) other free = (
    put_some-other written field.name next.name (value_for field)
          (eq_false_sym next.name field.name other.0)
        ∙ free.0,
    still-Unwritten written field rest other.1 free.1,
  )

  -- Every field reads back what was collected for it.
  pub collect-get :
      (fields : List SearchField) (written : List (Field V))
      → Distinct fields
      → Unwritten written fields
      → All (λ field. get (collect value_for fields written) field.name ≡ value_for field) fields
  unfolding collect
  collect-get [] written apart free = tt
  collect-get (field ∷ rest) written apart free = (
    collect-other rest (put_some written field.name (value_for field)) field.name apart.0
        ∙ put_some-same written field.name (value_for field) free.0,
    collect-get rest (put_some written field.name (value_for field)) apart.1
        (still-Unwritten written field rest apart.0 free.1),
  )

-- A value of an array field is an array, and another field's is a scalar.
abbrev pub Fits : Bool → Option EncodedValue → Type 0
Fits array none = Unit
Fits true (some (items values)) = Unit
Fits true (some (scalar value)) = ⊥
Fits false (some (items values)) = ⊥
Fits false (some (scalar value)) = Unit

unwritten_all :
    (V : Type 0) (fields : List SearchField)
    → All (λ field. get {V = V} [] field.name ≡ none) fields
unfolding get find?
unwritten_all V [] = tt
unwritten_all V (field ∷ rest) = (refl, unwritten_all V rest)

field-back :
    (array : Bool) (v : Option EncodedValue)
    → Fits array v
    → (v >>= encoded_field array >>= decoded_field array) ≡ v
field-back array none fits = refl
field-back true (some (items values)) fits =
    ap (λ vs. some (items vs)) (decode-encode_array_values values)
field-back true (some (scalar value)) fits = absurd fits
field-back false (some (items values)) fits = absurd fits
field-back false (some (scalar value)) fits = refl

-- An absent value that the prototype does not have either.
abbrev pub IsOwn : Option EncodedValue → Option String → Type 0
IsOwn (some value) inherited = Unit
IsOwn none inherited = inherited ≡ none

reads_own : (v : Option EncodedValue) (i : Option String) → IsOwn v i → own_or_inherited v i ≡ v
reads_own (some value) i own = refl
reads_own none i own = rw own refl

fields-back :
    (inherited : String → Option String) (fields : List SearchField)
    (value : List (Field EncodedValue)) (encoded : List (Field (List String)))
    (decoded : List (Field EncodedValue))
    → All (λ field. Fits field.array (get value field.name)) fields
    → All (λ field. IsOwn (get value field.name) (inherited field.name)) fields
    → All (λ field. get encoded field.name ≡ encoded_of inherited value field) fields
    → All (λ field. get decoded field.name ≡ decoded_of encoded field) fields
    → All (λ field. get decoded field.name ≡ get value field.name) fields
fields-back inherited [] value encoded decoded fits own out back = tt
fields-back inherited (field ∷ rest) value encoded decoded fits own out back = (
  back.0
      ∙ ap (λ o. o >>= decoded_field field.array)
          (out.0 ∙ ap (λ v. v >>= encoded_field field.array) (reads_own _ _ own.0))
      ∙ field-back field.array (get value field.name) fits.0,
  fields-back inherited rest value encoded decoded fits.1 own.1 out.1 back.1,
)

-- For a search codec whose fields have distinct names, every field of an encoded value, present or
-- absent, reads back after printing to the search record and parsing it, when array fields hold arrays
-- and the others scalars, and no absent field has a name under which the value's prototype has something.
pub decode-encode_fields :
    (inherited : String → Option String) (fields : List SearchField)
    (value : List (Field EncodedValue))
    → Distinct fields
    → All (λ field. Fits field.array (get value field.name)) fields
    → All (λ field. IsOwn (get value field.name) (inherited field.name)) fields
    → All
        (λ field.
          get (decode_fields fields (encode_fields inherited fields value)) field.name
          ≡ get value field.name)
        fields
decode-encode_fields inherited fields value apart fits own =
    let encoded = encode_fields inherited fields value in
    fields-back inherited fields value encoded (decode_fields fields encoded) fits own
      (collect-get (encoded_of inherited value) fields [] apart (unwritten_all _ fields))
      (collect-get (decoded_of encoded) fields [] apart (unwritten_all _ fields))
