-- ===== src/Route.antt =====
-- packages/effect-frame/src/router/path.ts and codec.ts: path templates, search records, and the text
-- that a URL can carry both ways. The percent codec, the test for a lone surrogate and the decoding of
-- a query string are the platform's: `Platform`. A defect is `none`.
pub mod Paths
pub mod Search
pub mod Tests
use effect_frame.Base.{
  ℕ, suc, ◌+◌, Bool, true, false, not, ◌||◌, ◌&&◌, Option, none, some, List, [], ◌∷◌, ◌++◌, map,
  String, ◌==◌, length, get_elem?, if◌then◌else◌, find?, filter, any, zero, eqb,
}
use text.Mathlib.Text.{starts_with}
use Prim.Native.String.{◌++◌ as ◌<>◌, slice, len}
use effect_frame.Engine.{◌>>=◌}
use mathlib.Core.Option

-- What the platform gives: `encodeURIComponent`, `decodeURIComponent` where it does not throw, and the
-- test of `/\p{Cs}/u`.
pub record Platform : Type 0 where
  pub encode_component : String → String
  pub decode_component : String → Option String
  pub has_surrogate : String → Bool

-- Why a text is outside the route domain.
pub data OutOfDomain : Type 0 where
  empty_segment dot_segment lone_surrogate : OutOfDomain

-- One piece of a path template.
pub data Part : Type 0 where
  literal segment tail : String → Part

-- What a path part decodes to: a scalar, or the items of a tail.
pub data PathValue : Type 0 where
  one : String → PathValue
  many : List String → PathValue

-- A record by its keys. Only reads by key are relied on, not the order of the keys.
pub record Field (V : Type 0) : Type 0 where
  pub key : String
  pub value : V

abbrev pub has_key : {V : Type 0} → String → Field V → Bool
has_key key field = field.key == key

unfoldable pub get : {V : Type 0} → List (Field V) → String → Option V
get record_of key = Option.map (λ field. field.value) (find? (has_key key) record_of)

-- `record[key] = value`.
unfoldable pub put : {V : Type 0} → List (Field V) → String → V → List (Field V)
put [] key value = record { key = key; value = value } ∷ []
put (field ∷ rest) key value =
    if has_key key field
    then record { key = field.key; value = value } ∷ rest
    else field ∷ put rest key value

-- `record[key] = value` on a plain object: assigning a text or an array to `__proto__` makes no field, or
-- none of the object's own.
unfoldable pub put_plain : {V : Type 0} → List (Field V) → String → V → List (Field V)
put_plain fields key value = if key == "__proto__" then fields else put fields key value

-- A prefix match: the record the parts decoded and the next unread segment.
pub record PrefixMatch : Type 0 where
  pub fields : List (Field PathValue)
  pub next : ℕ

abbrev pub is_none : {A : Type 0} → Option A → Bool
is_none none = true
is_none (some a) = false

abbrev pub all : (String → Bool) → List String → Bool
all p [] = true
all p (x ∷ xs) = p x && all p xs

module _ (platform : Platform) where
  open platform use {encode_component, decode_component, has_surrogate}

  unfoldable pub text_fault : String → Option OutOfDomain
  text_fault value = if has_surrogate value then some lone_surrogate else none

  unfoldable pub segment_fault : String → Option OutOfDomain
  segment_fault value =
      if value == ""
      then some empty_segment
      else if (value == ".") || (value == "..")
      then some dot_segment
      else text_fault value

  abbrev pub in_domain : Option String → Option String
  in_domain none = none
  in_domain (some decoded) = if is_none (segment_fault decoded) then some decoded else none

  -- One segment, percent-decoded, when its value is in the domain.
  unfoldable pub decode_segment : String → Option String
  decode_segment raw = in_domain (decode_component raw)

  -- `Option.all` over the decoded segments.
  unfoldable pub decode_all : List String → Option (List String)
  decode_all [] = some []
  decode_all (raw ∷ rest) = do
    decoded ← decode_segment raw
    others ← decode_all rest
    some (decoded ∷ others)

  -- What one part does with the segment at the index. A literal must be its text.
  abbrev pub matched_part :
      Part → List (Field PathValue) → Option String → Option (List (Field PathValue))
  matched_part part fields none = none
  matched_part (literal text) fields (some decoded) = if decoded == text then some fields else none
  matched_part (segment name) fields (some decoded) = some (put_plain fields name (one decoded))
  matched_part (tail name) fields (some decoded) = none

  abbrev pub tail_matched :
      String → List (Field PathValue) → Option (List String) → Option (List (Field PathValue))
  tail_matched name fields none = none
  tail_matched name fields (some decoded) = some (put_plain fields name (many decoded))

  -- The loop of `matchPrefix`: `segments` are those from the index on, of `total` in all.
  unfoldable pub match_parts :
      ℕ → List Part → List String → ℕ → List (Field PathValue) → Option PrefixMatch
  match_parts total [] segments index fields = some (record { fields = fields; next = index })
  match_parts total (tail name ∷ parts) segments index fields =
      tail_matched name fields (decode_all segments) >>= match_parts total parts [] total
  match_parts total (literal text ∷ parts) [] index fields = none
  match_parts total (segment name ∷ parts) [] index fields = none
  match_parts total (literal text ∷ parts) (head ∷ segments) index fields =
      matched_part (literal text) fields (decode_segment head)
      >>= match_parts total parts segments (suc index)
  match_parts total (segment name ∷ parts) (head ∷ segments) index fields =
      matched_part (segment name) fields (decode_segment head)
      >>= match_parts total parts segments (suc index)

  -- `segments.slice(start)`.
  unfoldable pub slice_from : ℕ → List String → List String
  slice_from zero segments = segments
  slice_from (suc start) [] = []
  slice_from (suc start) (head ∷ segments) = slice_from start segments

  unfoldable pub match_prefix : List Part → List String → ℕ → Option PrefixMatch
  match_prefix parts segments start =
      match_parts (length segments) parts (slice_from start segments) start []

  abbrev pub reaches_end : ℕ → PrefixMatch → Option (List (Field PathValue))
  reaches_end total matched = if eqb matched.next total then some matched.fields else none

  -- `matchPath`, on the segments of the pathname.
  unfoldable pub match_path : List Part → List String → Option (List (Field PathValue))
  match_path parts segments = match_prefix parts segments 0 >>= reaches_end (length segments)

  abbrev pub segments_in : PathValue → List String
  segments_in (one value) = value ∷ []
  segments_in (many values) = values

  abbrev pub in_url : String → Bool
  in_url value = is_none (segment_fault value)

  abbrev pub printed_value : Option PathValue → Option (List String)
  printed_value none = none
  printed_value (some value) =
      if all in_url (segments_in value)
      then some (map encode_component (segments_in value))
      else none

  abbrev pub print_part : List (Field PathValue) → Part → Option (List String)
  print_part fields (literal text) = some (encode_component text ∷ [])
  print_part fields (segment name) = printed_value (get fields name)
  print_part fields (tail name) = printed_value (get fields name)

  -- `printPath`, before its segments are joined. A missing value and one outside the domain are defects.
  unfoldable pub print_path : List Part → List (Field PathValue) → Option (List String)
  print_path [] fields = some []
  print_path (part ∷ parts) fields =
      print_part fields part
      >>= (λ printed. print_path parts fields >>= (λ rest. some (printed ++ rest)))

-- `readSearch`: the pairs of a query string as a multimap, in the order of the first keys.
unfoldable pub add_value : List (Field (List String)) → String → String → List (Field (List String))
add_value fields key value = elim (get fields key) [
  | none ↦ put fields key (value ∷ [])
  | some values ↦ put fields key (values ++ value ∷ [])
]

unfoldable pub read_pairs :
    List (Field (List String)) → List (String × String) → List (Field (List String))
read_pairs fields [] = fields
read_pairs fields ((key, value) ∷ pairs) = read_pairs (add_value fields key value) pairs

unfoldable pub read_search : List (String × String) → List (Field (List String))
read_search pairs = read_pairs [] pairs

-- The marker of an empty array, and the escape of values that begin with it.
abbrev pub empty_array_marker : String
empty_array_marker = "~"

unfoldable pub encode_array_value : String → String
encode_array_value value =
    if starts_with value empty_array_marker then empty_array_marker <> value else value

-- `slice(1)` after the marker, which is one unit long.
unfoldable pub decode_array_value : String → String
decode_array_value value =
    if starts_with value (empty_array_marker <> empty_array_marker)
    then slice value 1 (len value)
    else value

-- What `encodeFields` writes for an array.
unfoldable pub encode_array_values : List String → List String
encode_array_values [] = empty_array_marker ∷ []
encode_array_values (value ∷ values) = map encode_array_value (value ∷ values)

unfoldable pub decode_array_values : List String → List String
decode_array_values [] = []
decode_array_values (value ∷ []) =
    if value == empty_array_marker then [] else decode_array_value value ∷ []
decode_array_values (value ∷ other ∷ values) = map decode_array_value (value ∷ other ∷ values)

-- One field of a search codec, and an encoded value of it.
pub record SearchField : Type 0 where
  pub decoded_name : String
  pub name : String
  pub array : Bool

pub data EncodedValue : Type 0 where
  scalar : String → EncodedValue
  items : List String → EncodedValue

abbrev pub first_of : List String → Option EncodedValue
first_of [] = none
first_of (value ∷ values) = some (scalar value)

abbrev pub decoded_field : Bool → List String → Option EncodedValue
decoded_field true values = some (items (decode_array_values values))
decoded_field false values = first_of values

abbrev pub put_some : {V : Type 0} → List (Field V) → String → Option V → List (Field V)
put_some fields key none = fields
put_some fields key (some value) = put fields key value

-- The record of the fields that have a value, written in their order.
unfoldable pub collect :
    {V : Type 0} → (SearchField → Option V) → List SearchField → List (Field V) → List (Field V)
collect value_for [] written = written
collect value_for (field ∷ rest) written =
    collect value_for rest (put_some written field.name (value_for field))

abbrev pub decoded_of : List (Field (List String)) → SearchField → Option EncodedValue
decoded_of found field = get found field.name >>= decoded_field field.array

abbrev pub decode_fields : List SearchField → List (Field (List String)) → List (Field EncodedValue)
decode_fields fields found = collect (decoded_of found) fields []

-- `String` of an array.
abbrev pub comma_joined : List String → String
comma_joined [] = ""
comma_joined (value ∷ []) = value
comma_joined (value ∷ other ∷ values) = value <> "," <> comma_joined (other ∷ values)

abbrev pub encoded_field : Bool → EncodedValue → Option (List String)
encoded_field true (items values) = some (encode_array_values values)
encoded_field false (items values) = some (comma_joined values ∷ [])
encoded_field array (scalar value) = some (value ∷ [])

-- `Reflect.get`: an object's own value, or else what its prototype has under the name.
abbrev pub own_or_inherited : Option EncodedValue → Option String → Option EncodedValue
own_or_inherited (some value) inherited = some value
own_or_inherited none none = none
own_or_inherited none (some text) = some (scalar text)

-- What the prototype of the encoded value has under a name, a method as `String` prints it.
module _ (inherited : String → Option String) where
  abbrev pub encoded_of : List (Field EncodedValue) → SearchField → Option (List String)
  encoded_of value field =
      own_or_inherited (get value field.name) (inherited field.name) >>= encoded_field field.array

  abbrev pub encode_fields :
      List SearchField → List (Field EncodedValue) → List (Field (List String))
  encode_fields fields value = collect (encoded_of value) fields []
