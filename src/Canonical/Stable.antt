-- ===== src/Canonical/Stable.antt =====
-- The canonical text does not tell in which order the fields of an object were spelled.
use effect_frame.Base.{◌≡◌, refl, ap, ◌∙◌, Bool, false, Option, some, String, ◌==◌}
use effect_frame.Canonical.{
  Json, array, object, Elements, no_elements, element, Entries, no_entries, entry, insert, sort,
  sort_elements, sort_entries, canonicalize,
}
use effect_frame.Canonical.Insert.{IsOrder, insert-swap}

-- The same data: two neighbouring fields of an object with different names may change places, at any depth
-- and any number of times.
mutual
  pub data Reordered {N : Type 0} : Json N → Json N → Type 0 where
    unchanged : (v : Json N) → Reordered v v
    in_array : {xs ys : Elements N} → ReorderedIn xs ys → Reordered (array xs) (array ys)
    in_object : {es fs : Entries N} → ReorderedFields es fs → Reordered (object es) (object fs)

  pub data ReorderedIn {N : Type 0} : Elements N → Elements N → Type 0 where
    none_left : ReorderedIn no_elements no_elements
    each :
        {v w : Json N} {xs ys : Elements N}
        → Reordered v w
        → ReorderedIn xs ys
        → ReorderedIn (element v xs) (element w ys)

  pub data ReorderedFields {N : Type 0} : Entries N → Entries N → Type 0 where
    no_fields : ReorderedFields no_entries no_entries
    field :
        {v w : Json N} {es fs : Entries N} (key : String)
        → Reordered v w
        → ReorderedFields es fs
        → ReorderedFields (entry key v es) (entry key w fs)
    swapped :
        (j k : String) (v w : Json N) (es : Entries N)
        → (j == k) ≡ false
        → ReorderedFields (entry j v (entry k w es)) (entry k w (entry j v es))
    followed_by :
        {es fs gs : Entries N}
        → ReorderedFields es fs
        → ReorderedFields fs gs
        → ReorderedFields es gs

module _ {N : Type 0} (before : String → String → Bool) (build : Entries N → Entries N)
    (order : IsOrder before) where
  mutual
    unfolding sort

    sort-Reordered : {v w : Json N} → Reordered v w → sort before build v ≡ sort before build w
    sort-Reordered (unchanged v) = refl
    sort-Reordered (in_array r) = ap array (elements-Reordered r)
    sort-Reordered (in_object r) = ap (λ es. object (build es)) (entries-Reordered r)

    elements-Reordered :
        {xs ys : Elements N}
        → ReorderedIn xs ys
        → sort_elements before build xs ≡ sort_elements before build ys
    elements-Reordered none_left = refl
    elements-Reordered (each {v} {w} {xs} {ys} r rs) =
        ap (λ x. element x (sort_elements before build xs)) (sort-Reordered r)
        ∙ ap (λ zs. element (sort before build w) zs) (elements-Reordered rs)

    entries-Reordered :
        {es fs : Entries N}
        → ReorderedFields es fs
        → sort_entries before build es ≡ sort_entries before build fs
    entries-Reordered no_fields = refl
    entries-Reordered (field {v} {w} {es} {fs} key r rs) =
        ap (λ x. insert before key x (sort_entries before build es)) (sort-Reordered r)
        ∙ ap (λ gs. insert before key (sort before build w) gs) (entries-Reordered rs)
    entries-Reordered (swapped j k v w es differ) = insert-swap before order j k _ _ _ differ
    entries-Reordered (followed_by r rs) = entries-Reordered r ∙ entries-Reordered rs

  -- When `<` orders any two different texts one way and is transitive: two encoded arguments that parse to
  -- the same data, but for the order in which the fields of its objects are spelled at any depth, have one
  -- canonical text, so they name one cache entry.
  pub canonicalize-Reordered :
      (parse : String → Option (Json N)) (stringify : Json N → String) (a b : String) (v w : Json N)
      → parse a ≡ some v
      → parse b ≡ some w
      → Reordered v w
      → canonicalize before build parse stringify a ≡ canonicalize before build parse stringify b
  unfolding canonicalize
  canonicalize-Reordered parse stringify a b v w e f r =
      rw (e, f) (ap (λ x. some (stringify x)) (sort-Reordered r))
