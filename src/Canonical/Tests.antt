-- ===== src/Canonical/Tests.antt =====
-- Canonical texts on one value spelled in two orders, with texts compared by the numbers of their characters.
use effect_frame.Base.{
  ℕ, ◌≡◌, refl, ap, ◌∙◌, Bool, true, false, not, Option, some, ◌==◌, eq_iff, if◌then◌else◌, ltb,
  eqb, arith,
}
use Prim.Native.String.{String, [] as no_char, ◌∷◌ as ◌▹◌, ◌++◌ as ◌<>◌}
use Prim.Native.Char.{code}
use text.Mathlib.TextEquality.{Char-path}
use effect_frame.Canonical.{
  Json, null, boolean, number, string, array, object, Entries, no_entries, entry, insert, sort,
  canonicalize,
}
use effect_frame.Canonical.Insert.{IsOrder}
use effect_frame.Canonical.Stable.{in_object, swapped, canonicalize-Reordered}

unfoldable below : String → String → Bool
below no_char no_char = false
below no_char (d ▹ t) = true
below (c ▹ s) no_char = false
below (c ▹ s) (d ▹ t) =
    let rest = below s t in
    if ltb (code c) (code d) then true else if eqb (code c) (code d) then rest else false

below_asym : (a b : String) → below a b ≡ true → below b a ≡ false
unfolding below
below_asym no_char no_char h = refl
below_asym no_char (d ▹ t) h = refl
below_asym (c ▹ s) no_char h = absurd (cc)
below_asym (c ▹ s) (d ▹ t) h = ground (arith, below_asym s t)

below_trans : (a b c : String) → below a b ≡ true → below b c ≡ true → below a c ≡ true
unfolding below
below_trans no_char no_char c h k = absurd (cc)
below_trans no_char (y ▹ b) no_char h k = absurd (cc)
below_trans no_char (y ▹ b) (z ▹ c) h k = refl
below_trans (x ▹ a) no_char c h k = absurd (cc)
below_trans (x ▹ a) (y ▹ b) no_char h k = absurd (cc)
below_trans (x ▹ a) (y ▹ b) (z ▹ c) h k = ground (arith, below_trans a b c)

below_antisym : (a b : String) → below a b ≡ false → below b a ≡ false → a ≡ b
unfolding below
below_antisym no_char no_char h k = refl
below_antisym no_char (d ▹ t) h k = absurd (cc)
below_antisym (c ▹ s) no_char h k = absurd (cc)
below_antisym (c ▹ s) (d ▹ t) h k =
    let same : code c ≡ code d = ground arith in
    let rest = below_antisym s t (ground arith) (ground arith) in
    ap (λ x. x ▹ s) (Char-path c d same) ∙ ap (λ u. d ▹ u) rest

below-IsOrder : IsOrder below
below-IsOrder = record {
  total = λ a b differ. total_at a b differ (below a b) (below b a) refl refl;
  transitive = below_trans;
}
  where
    total_at :
        (a b : String)
        → (a == b) ≡ false
        → (x y : Bool) → below a b ≡ x
        → below b a ≡ y
        → below a b ≡ not (below b a)
    total_at a b differ true y e f = rw (e, below_asym a b e) refl
    total_at a b differ false true e f = rw (e, f) refl
    total_at a b differ false false e f =
        let same = (eq_iff a b).1 (below_antisym a b e f) in absurd (cc)

-- The keys of an object, in order: enough of a printer to tell two orders apart.
abbrev keys : Entries ℕ → String
keys no_entries = ""
keys (entry key value es) = key <> keys es

abbrev print : Json ℕ → String
print (object es) = keys es
print null = "null"
print (boolean b) = "boolean"
print (number n) = "number"
print (string s) = s
print (array xs) = "array"

abbrev user_first : Json ℕ
user_first = object (entry "user" (string "ann") (entry "page" (number 2) no_entries))

abbrev page_first : Json ℕ
page_first = object (entry "page" (number 2) (entry "user" (string "ann") no_entries))

abbrev parse : String → Option (Json ℕ)
parse encoded = if encoded == "user_first" then some user_first else some page_first

sorts : canonicalize below (λ es. es) parse print "user_first" ≡ some "pageuser"
unfolding canonicalize sort insert below
sorts = refl

canonicalize-Reordered_example :
    canonicalize below (λ es. es) parse print "user_first"
    ≡ canonicalize below (λ es. es) parse print "page_first"
canonicalize-Reordered_example =
    canonicalize-Reordered below (λ es. es) below-IsOrder parse print "user_first" "page_first"
      user_first page_first refl refl
      (in_object (swapped "user" "page" (string "ann") (number 2) no_entries refl))
