-- ===== src/Canonical.antt =====
-- packages/effect-frame/src/actor/canonical-json.ts: the canonical text of encoded arguments. JSON's own
-- `parse` and `stringify`, the order of texts and the object that assignments build are JavaScript's, so
-- they are parameters.
pub mod Insert
pub mod Stable
pub mod Tests
use effect_frame.Base.{Bool, true, false, Option, some, none, String, if◌then◌else◌}
use mathlib.Core.Option

-- JSON values over a type of numbers. An object has its fields in the order of its entries.
mutual
  pub data Json (N : Type 0) : Type 0 where
    null : Json N
    boolean : Bool → Json N
    number : N → Json N
    string : String → Json N
    array : Elements N → Json N
    object : Entries N → Json N

  pub data Elements (N : Type 0) : Type 0 where
    no_elements : Elements N
    element : Json N → Elements N → Elements N

  pub data Entries (N : Type 0) : Type 0 where
    no_entries : Entries N
    entry : String → Json N → Entries N → Entries N

-- A stable sort by key puts each entry before the first one that is not below it. `before` is `<` on texts.
module _ {N : Type 0} (before : String → String → Bool) where
  unfoldable pub insert : String → Json N → Entries N → Entries N
  insert key value no_entries = entry key value no_entries
  insert key value (entry head x rest) =
      let below = insert key value rest in
      if before head key then entry head x below else entry key value (entry head x rest)

-- `build` makes an object by assignments in the order of its entries.
module _ {N : Type 0} (before : String → String → Bool) (build : Entries N → Entries N) where
  unfoldable mutual
    pub sort : Json N → Json N
    sort null = null
    sort (boolean b) = boolean b
    sort (number n) = number n
    sort (string s) = string s
    sort (array xs) = array (sort_elements xs)
    sort (object es) = object (build (sort_entries es))

    pub sort_elements : Elements N → Elements N
    sort_elements no_elements = no_elements
    sort_elements (element x xs) = element (sort x) (sort_elements xs)

    pub sort_entries : Entries N → Entries N
    sort_entries no_entries = no_entries
    sort_entries (entry key value es) = insert before key (sort value) (sort_entries es)

  -- An encoded text that is no JSON throws.
  unfoldable pub canonicalize :
      (String → Option (Json N)) → (Json N → String) → String → Option String
  canonicalize parse stringify encoded =
      Option.map (λ value. stringify (sort value)) (parse encoded)
