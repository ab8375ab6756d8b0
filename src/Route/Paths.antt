-- ===== src/Route/Paths.antt =====
-- Paths of path.ts and codec.ts: what a template prints, it matches.
use effect_frame.Base.{
  ℕ, suc, ◌+◌, ◌≡◌, refl, sym, ap, subst, ◌∙◌, inl, inr, Bool, true, false, ◌||◌, ◌&&◌, Option,
  none, some, List, [], ◌∷◌, ◌++◌, map, String, ◌==◌, eq_iff, eq_refl, arith, length, if◌then◌else◌,
  Bool-cases, eq_of_some,
}
use mathlib.Core.Option
use effect_frame.Engine.{◌>>=◌}
use effect_frame.Route.Search.{get-put_same, get-put_other}
use effect_frame.Route.{
  Platform, Part, literal, segment, tail, PathValue, one, many, Field, get, put, put_plain, all,
  text_fault, segment_fault, in_domain, decode_segment, decode_all, matched_part, tail_matched,
  match_parts, slice_from, match_prefix, reaches_end, match_path, segments_in, in_url,
  printed_value, print_part, print_path,
}

both : (a b : Bool) → (a && b) ≡ true → (a ≡ true) × (b ≡ true)
both true b h = (refl, h)
both false b h = absurd (cc)

bind-some :
    {A B : Type 0} (m : Option A) (k : A → Option B) (b : B)
    → (m >>= k) ≡ some b
    → (a : A) × (m ≡ some a) × (k a ≡ some b)
bind-some none k b h = absurd (cc)
bind-some (some a) k b h = (a, refl, h)

append-nil : {A : Type 0} (xs : List A) → xs ++ [] ≡ xs
append-nil [] = refl
append-nil (x ∷ xs) = ap (λ ys. x ∷ ys) (append-nil xs)

module _ (platform : Platform) where
  -- The percent codec decodes what it encodes, for text without a lone surrogate.
  abbrev pub IsPercentCodec : Type 0
  IsPercentCodec =
      (s : String)
      → platform.has_surrogate s ≡ false
      → platform.decode_component (platform.encode_component s) ≡ some s

  in_url-well_formed : (s : String) → in_url platform s ≡ true → platform.has_surrogate s ≡ false
  unfolding segment_fault text_fault
  in_url-well_formed s h = ground arith

  decode-encode_segment :
      IsPercentCodec
      → (s : String) → in_url platform s ≡ true
      → decode_segment platform (platform.encode_component s) ≡ some s
  unfolding decode_segment
  decode-encode_segment codec s h =
      ap (in_domain platform) (codec s (in_url-well_formed s h)) ∙ rw h refl

  decode-encode_all :
      IsPercentCodec
      → (ss : List String) → all (in_url platform) ss ≡ true
      → decode_all platform (map platform.encode_component ss) ≡ some ss
  unfolding decode_all
  decode-encode_all codec [] h = refl
  decode-encode_all codec (s ∷ ss) h =
      let (first, others) = both (in_url platform s) (all (in_url platform) ss) h in
      ap
        (λ o. o >>= (λ d.
          decode_all platform (map platform.encode_component ss) >>= (λ ds. some (d ∷ ds))))
        (decode-encode_segment codec s first)
      ∙ ap (λ o. o >>= (λ ds. some (s ∷ ds))) (decode-encode_all codec ss others)

  -- A name that an assignment to a plain object keeps.
  abbrev pub IsKept : String → Type 0
  IsKept name = (name == "__proto__") ≡ false

  put_plain_lem :
      (written : List (Field PathValue)) (name : String) (value : PathValue)
      → IsKept name
      → put_plain written name value ≡ put written name value
  unfolding put_plain
  put_plain_lem written name value kept = rw kept refl

  -- The record fits the template: literals are in the domain, a segment has a scalar, a tail, the last
  -- part, has items, and no param is named `__proto__`.
  abbrev pub Fits : List (Field PathValue) → List Part → Type 0
  Fits fields [] = Unit
  Fits fields (literal text ∷ parts) = (in_url platform text ≡ true) × Fits fields parts
  Fits fields (segment name ∷ parts) =
      ((s : String) × (get fields name ≡ some (one s)) × IsKept name) × Fits fields parts
  Fits fields (tail name ∷ parts) =
      ((ss : List String) × (get fields name ≡ some (many ss)) × IsKept name) × (parts ≡ [])

  -- What the match writes.
  abbrev put_value : List (Field PathValue) → String → Option PathValue → List (Field PathValue)
  put_value written name none = written
  put_value written name (some value) = put written name value

  abbrev pub filled :
      List (Field PathValue) → List Part → List (Field PathValue) → List (Field PathValue)
  filled fields [] written = written
  filled fields (literal text ∷ parts) written = filled fields parts written
  filled fields (segment name ∷ parts) written =
      filled fields parts (put_value written name (get fields name))
  filled fields (tail name ∷ parts) written =
      filled fields parts (put_value written name (get fields name))

  printed_as :
      (value : PathValue) (out : List String)
      → printed_value platform (some value) ≡ some out
      → (all (in_url platform) (segments_in platform value) ≡ true)
        × (out ≡ map platform.encode_component (segments_in platform value))
  printed_as value out h = go (all (in_url platform) (segments_in platform value)) refl h
    where
      go :
          (b : Bool)
          → all (in_url platform) (segments_in platform value) ≡ b
          → (if b then some (map platform.encode_component (segments_in platform value)) else none)
            ≡ some out
          → (all (in_url platform) (segments_in platform value) ≡ true)
            × (out ≡ map platform.encode_component (segments_in platform value))
      go true e h = (e, sym (eq_of_some _ out h))
      go false e h = absurd (cc)

  -- A part that prints its text, in front of what the rest prints.
  print_rest :
      (part : Part) (parts : List Part) (fields : List (Field PathValue)) (out : List String)
      → print_path platform (part ∷ parts) fields ≡ some out
      → (printed rest : List String) × (print_part platform fields part ≡ some printed)
        × (print_path platform parts fields ≡ some rest)
        × (printed ++ rest ≡ out)
  unfolding print_path
  print_rest part parts fields out h =
      let (printed, e, h1) = bind-some (print_part platform fields part) _ out h in
      let (rest, e2, h2) =
        bind-some (print_path platform parts fields) (λ rest. some (printed ++ rest)) out h1 in
      (printed, rest, e, e2, eq_of_some _ out h2)

  match-print :
      IsPercentCodec
      → (parts : List Part) (fields written : List (Field PathValue)) (out : List String)
        (index total : ℕ)
      → Fits fields parts
      → print_path platform parts fields ≡ some out
      → index + length out ≡ total
      → match_parts platform total parts out index written
        ≡ some (record { fields = filled fields parts written; next = total })
  unfolding match_parts print_path
  match-print codec [] fields written out index total fits h at =
      let nothing : [] ≡ out = eq_of_some [] out h in
      let none_left = ap length nothing in
      let same : index ≡ total = omega arith in
      ap (λ n. some (record { fields = written; next = n })) same
  match-print codec (literal text ∷ parts) fields written out index total fits h at =
      let (printed, rest, e, e2, joined) = print_rest (literal text) parts fields out h in
      let is : platform.encode_component text ∷ rest ≡ out =
        ap (λ p. p ++ rest) (eq_of_some _ printed e) ∙ joined in
      let counted = ap length is in
      let later : (suc index) + length rest ≡ total = omega arith in
      let hit : matched_part platform (literal text) written (some text) ≡ some written =
        rw (eq_refl text) refl in
      subst
        (λ o.
          match_parts platform total (literal text ∷ parts) o index written
          ≡ some (record { fields = filled fields parts written; next = total }))
        is
        (ap
            (λ d.
              matched_part platform (literal text) written d
              >>= match_parts platform total parts rest (suc index))
            (decode-encode_segment codec text fits.0)
          ∙ ap (λ f. f >>= match_parts platform total parts rest (suc index)) hit
          ∙ match-print codec parts fields written rest (suc index) total fits.1 e2 later)
  match-print codec (segment name ∷ parts) fields written out index total ((s, holds_s, kept), fits)
        h at =
      let (printed, rest, e, e2, joined) = print_rest (segment name) parts fields out h in
      let (ok, shape) =
        printed_as (one s) printed (sym (ap (printed_value platform) holds_s) ∙ e) in
      let is : platform.encode_component s ∷ rest ≡ out =
        ap (λ p. p ++ rest) (sym shape) ∙ joined in
      let counted = ap length is in
      let later : (suc index) + length rest ≡ total = omega arith in
      subst
        (λ o.
          match_parts platform total (segment name ∷ parts) o index written
          ≡ some (record { fields = filled fields (segment name ∷ parts) written; next = total }))
        is
        (ap
            (λ d.
              matched_part platform (segment name) written d
              >>= match_parts platform total parts rest (suc index))
            (decode-encode_segment codec s (both (in_url platform s) true ok).0)
          ∙ ap (λ w. match_parts platform total parts rest (suc index) w)
              (put_plain_lem written name (one s) kept)
          ∙ match-print codec parts fields (put written name (one s)) rest (suc index) total fits e2
              later
          ∙ ap
              (λ v.
                some (record {
                  fields = filled fields parts (put_value written name v);
                  next = total;
                }))
              (sym holds_s))
  match-print codec (tail name ∷ parts) fields written out index total ((ss, holds_ss, kept), last)
        h at =
      let (printed, rest, e, e2, joined) = print_rest (tail name) parts fields out h in
      let (ok, shape) =
        printed_as (many ss) printed (sym (ap (printed_value platform) holds_ss) ∙ e) in
      let empty : [] ≡ rest =
        eq_of_some [] rest (subst (λ p. print_path platform p fields ≡ some rest) last e2) in
      let is : map platform.encode_component ss ≡ out =
        sym shape ∙ sym (append-nil printed) ∙ ap (λ r. printed ++ r) empty ∙ joined in
      subst
        (λ o.
          match_parts platform total (tail name ∷ parts) o index written
          ≡ some (record { fields = filled fields (tail name ∷ parts) written; next = total }))
        is
        (ap
            (λ d.
              tail_matched platform name written d >>= match_parts platform total parts [] total)
            (decode-encode_all codec ss ok)
          ∙ ap (λ w. match_parts platform total parts [] total w)
              (put_plain_lem written name (many ss) kept)
          ∙ subst
              (λ p.
                match_parts platform total p [] total (put written name (many ss))
                ≡ some (record {
                  fields = filled fields p (put written name (many ss));
                  next = total;
                }))
              (sym last) refl
          ∙ ap
              (λ v.
                some (record {
                  fields = filled fields parts (put_value written name v);
                  next = total;
                }))
              (sym holds_ss))

  -- The names that a template has.
  abbrev pub has_name : String → List Part → Bool
  has_name key [] = false
  has_name key (literal text ∷ parts) = has_name key parts
  has_name key (segment name ∷ parts) = (name == key) || has_name key parts
  has_name key (tail name ∷ parts) = (name == key) || has_name key parts

  put_value-sets :
      (written fields : List (Field PathValue)) (name key : String) (value : PathValue)
      → get fields name ≡ some value
      → (name == key) ≡ true
      → get (put written name value) key ≡ get fields key
  put_value-sets written fields name key value is e =
      subst (λ k. get (put written name value) k ≡ get fields k) ((eq_iff name key).0 e)
        (get-put_same written name value ∙ sym is)

  ended :
      (n : ℕ) (found : List (Field PathValue))
      → reaches_end platform n (record { fields = found; next = n }) ≡ some found
  ended n found = ground arith

  put_value-keeps :
      (written fields : List (Field PathValue)) (name key : String) (v : Option PathValue)
      → get fields name ≡ v
      → get written key ≡ get fields key
      → get (put_value written name v) key ≡ get fields key
  put_value-keeps written fields name key none is h = h
  put_value-keeps written fields name key (some value) is h = elim (Bool-cases (name == key)) [
    | inl e ↦ put_value-sets written fields name key value is e
    | inr e ↦ get-put_other written name key value e ∙ h
  ]

  filled-keeps :
      (fields : List (Field PathValue)) (parts : List Part) (written : List (Field PathValue))
      (key : String)
      → get written key ≡ get fields key
      → get (filled fields parts written) key ≡ get fields key
  filled-keeps fields [] written key h = h
  filled-keeps fields (literal text ∷ parts) written key h = filled-keeps fields parts written key h
  filled-keeps fields (segment name ∷ parts) written key h =
      filled-keeps fields parts _ key
        (put_value-keeps written fields name key (get fields name) refl h)
  filled-keeps fields (tail name ∷ parts) written key h =
      filled-keeps fields parts _ key
        (put_value-keeps written fields name key (get fields name) refl h)

  named_now :
      (fields : List (Field PathValue)) (parts : List Part) (written : List (Field PathValue))
      (name key : String) (v : PathValue)
      → get fields name ≡ some v
      → (name == key) || has_name key parts ≡ true
      → ((w : List (Field PathValue))
          → has_name key parts ≡ true
          → get (filled fields parts w) key ≡ get fields key)
      → get (filled fields parts (put_value written name (get fields name))) key ≡ get fields key
  named_now fields parts written name key v is named later = elim (Bool-cases (name == key)) [
    | inl e ↦ filled-keeps fields parts _ key (
        ap (λ o. get (put_value written name o) key) is
        ∙ put_value-sets written fields name key v is e)
    | inr e ↦ later _ (rw e at named)
  ]

  filled-get :
      (fields : List (Field PathValue)) (parts : List Part) (written : List (Field PathValue))
      (key : String)
      → Fits fields parts
      → has_name key parts ≡ true
      → get (filled fields parts written) key ≡ get fields key
  filled-get fields [] written key fits named = absurd (cc)
  filled-get fields (literal text ∷ parts) written key fits named =
      filled-get fields parts written key fits.1 named
  filled-get fields (segment name ∷ parts) written key ((s, is, kept), fits) named =
      named_now fields parts written name key (one s) is named
        (λ w m. filled-get fields parts w key fits m)
  filled-get fields (tail name ∷ parts) written key ((ss, is, kept), last) named =
      named_now fields parts written name key (many ss) is named
        (λ w m. absurd (cc (subst (λ p. has_name key p ≡ true) last m)))

  -- With a percent codec that decodes what it encodes, a path that a template prints from a record that
  -- fits it, none of its params and tails named `__proto__`, matches that template again, to its end, and every param and tail of the template reads
  -- back as the record had it.
  pub match-print_path :
      IsPercentCodec
      → (parts : List Part) (fields : List (Field PathValue)) (out : List String) (key : String)
      → Fits fields parts
      → print_path platform parts fields ≡ some out
      → has_name key parts ≡ true
      → Option.map (λ found. get found key) (match_path platform parts out) ≡ some (get fields key)
  unfolding match_path match_prefix slice_from
  match-print_path codec parts fields out key fits h named =
      ap (λ m. Option.map (λ found. get found key) (m >>= reaches_end platform (length out)))
        (match-print codec parts fields [] out 0 (length out) fits h (omega arith))
      ∙ ap (Option.map (λ found. get found key)) (ended (length out) (filled fields parts []))
      ∙ ap some (filled-get fields parts [] key fits named)
