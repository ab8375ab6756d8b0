-- ===== src/Canonical/Insert.antt =====
-- Entries with different keys may be inserted in either order.
use effect_frame.Base.{
  ◌≡◌, refl, sym, ap, subst, ◌∙◌, inl, inr, Bool, true, false, not, String, ◌==◌, Bool-cases,
}
use effect_frame.Canonical.{Json, Entries, no_entries, entry, insert}

-- `<` on texts orders each two different texts one way, and is transitive.
pub record IsOrder (before : String → String → Bool) : Type 0 where
  pub total : (a b : String) → (a == b) ≡ false → before a b ≡ not (before b a)
  pub transitive : (a b c : String) → before a b ≡ true → before b c ≡ true → before a c ≡ true

module _ {N : Type 0} (before : String → String → Bool) (order : IsOrder before) where
  insert-past :
      (h k : String) (x v : Json N) (es : Entries N)
      → before h k ≡ true
      → insert before k v (entry h x es) ≡ entry h x (insert before k v es)
  unfolding insert
  insert-past h k x v es e = rw (e) refl

  insert-here :
      (h k : String) (x v : Json N) (es : Entries N)
      → before h k ≡ false
      → insert before k v (entry h x es) ≡ entry k v (entry h x es)
  unfolding insert
  insert-here h k x v es e = rw (e) refl

  -- Where the head is not below `k`, nor is what `j` makes of it, when `j` is above `k`.
  insert-first :
      (h j k : String) (x v w : Json N) (es : Entries N)
      → before j k ≡ false
      → before h k ≡ false
      → insert before k w (insert before j v (entry h x es))
        ≡ entry k w (insert before j v (entry h x es))
  insert-first h j k x v w es above low = elim (Bool-cases (before h j)) [
    | inl e ↦ rw (insert-past h j x v es e) (insert-here h k x w (insert before j v es) low)
    | inr e ↦ rw (insert-here h j x v es e) (insert-here j k v w (entry h x es) above)
  ]

  below-swap :
      (j k : String) (v w : Json N) (es : Entries N)
      → before k j ≡ true
      → before j k ≡ false
      → insert before j v (insert before k w es) ≡ insert before k w (insert before j v es)
  unfolding insert
  below-swap j k v w no_entries below above =
      insert-past k j w v no_entries below ∙ sym (insert-here j k v w no_entries above)
  below-swap j k v w (entry h x es) below above = elim (Bool-cases (before h k)) [
    | inl e ↦
        let f = order.transitive h k j e below in
        ap (λ t. insert before j v t) (insert-past h k x w es e)
        ∙ insert-past h j x v (insert before k w es) f
        ∙ ap (λ t. entry h x t) (below-swap j k v w es below above)
        ∙ sym (insert-past h k x w (insert before j v es) e)
        ∙ ap (λ t. insert before k w t) (sym (insert-past h j x v es f))
    | inr e ↦
        ap (λ t. insert before j v t) (insert-here h k x w es e)
        ∙ insert-past k j w v (entry h x es) below
        ∙ sym (insert-first h j k x v w es above e)
  ]

  pub insert-swap :
      (j k : String) (v w : Json N) (es : Entries N)
      → (j == k) ≡ false
      → insert before j v (insert before k w es) ≡ insert before k w (insert before j v es)
  insert-swap j k v w es differ = go (before k j) (before j k) refl refl (order.total j k differ)
    where
      go :
          (kj jk : Bool)
          → before k j ≡ kj
          → before j k ≡ jk
          → before j k ≡ not (before k j)
          → insert before j v (insert before k w es) ≡ insert before k w (insert before j v es)
      go true false e f t = below-swap j k v w es e f
      go false true e f t = sym (below-swap k j w v es f e)
      go true true e f t = absurd (cc (subst (λ b. before j k ≡ not b) e t))
      go false false e f t = absurd (cc (subst (λ b. before j k ≡ not b) e t))
