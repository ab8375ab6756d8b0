-- ===== src/Query/Entries.antt =====
-- Lists of entries under a change of some of them, and the claims that count for an entry.
use effect_frame.Base.{
  ℕ, suc, ◌≡◌, refl, ap, ◌∙◌, Bool, true, false, some, List, [], ◌∷◌, ◌++◌, map, String, ◌==◌,
  if◌then◌else◌, All, any, filter, find?, arith, eq_of_some,
}
use effect_frame.Query.{Slot}
use effect_frame.Query.Cache.{Claim, count_in, changed_if, has_token, remove_claim}

pub All-change :
    {A : Type 0} (P Q : Slot A → Type 0) (test : Slot A → Bool) (f : Slot A → Slot A)
    (xs : List (Slot A))
    → ((s : Slot A) → P s → test s ≡ true → Q (f s))
    → ((s : Slot A) → P s → test s ≡ false → Q s)
    → All P xs
    → All Q (map (changed_if test f) xs)
All-change P Q test f [] hit miss h = tt
All-change P Q test f (x ∷ xs) hit miss h =
    (pick (test x) refl, All-change P Q test f xs hit miss h.1)
  where
    pick : (b : Bool) → test x ≡ b → Q (if b then f x else x)
    pick true e = hit x h.0 e
    pick false e = miss x h.0 e

pub All-every :
    {A : Type 0} (P Q : Slot A → Type 0) (f : Slot A → Slot A) (xs : List (Slot A))
    → ((s : Slot A) → P s → Q (f s))
    → All P xs
    → All Q (map f xs)
All-every P Q f [] k h = tt
All-every P Q f (x ∷ xs) k h = (k x h.0, All-every P Q f xs k h.1)

pub All-filtered :
    {A : Type 0} (P : Slot A → Type 0) (q : Slot A → Bool) (xs : List (Slot A))
    → All P xs
    → All P (filter q xs)
unfolding filter
All-filtered P q [] h = tt
All-filtered P q (x ∷ xs) h = pick (q x) h.0 (All-filtered P q xs h.1)
  where
    pick :
        (b : Bool) → P x → All P (filter q xs) → All P (if b then x ∷ filter q xs else filter q xs)
    pick true p r = (p, r)
    pick false p r = r

pub All-both :
    {A : Type 0} (P Q : Slot A → Type 0) (xs : List (Slot A))
    → All P xs
    → All Q xs
    → All (λ s. P s × Q s) xs
All-both P Q [] h k = tt
All-both P Q (x ∷ xs) h k = ((h.0, k.0), All-both P Q xs h.1 k.1)

-- A claim that does not name a contract of an entry counts nothing for it.
pub count-append_other :
    (cs : List Claim) (one : Claim) (names : List String)
    → any (λ name. name == one.contract) names ≡ false
    → count_in (cs ++ one ∷ []) names ≡ count_in cs names
count-append_other [] one names h = rw h refl
count-append_other (c ∷ cs) one names h = ground (arith, count-append_other cs one names h)

pub count-remove_other :
    (token : ℕ) (cs : List Claim) (one : Claim) (names : List String)
    → find? (has_token token) cs ≡ some one
    → any (λ name. name == one.contract) names ≡ false
    → count_in (remove_claim token cs) names ≡ count_in cs names
unfolding find? remove_claim
count-remove_other token [] one names e h = absurd (cc)
count-remove_other token (c ∷ cs) one names e h =
    go (has_token token c) e (count-remove_other token cs one names)
  where
    go :
        (b : Bool)
        → (if b then some c else find? (has_token token) cs) ≡ some one
        → (find? (has_token token) cs ≡ some one
            → any (λ name. name == one.contract) names ≡ false
            → count_in (remove_claim token cs) names ≡ count_in cs names)
        → count_in (if b then cs else c ∷ remove_claim token cs) names ≡ count_in (c ∷ cs) names
    go true e ih =
        let missed = ap (λ d. any (λ name. name == d.contract) names) (eq_of_some c one e) ∙ h in
        rw missed refl
    go false e ih = ap (λ k. if any (λ name. name == c.contract) names then suc k else k) (ih e h)

-- Every live entry has the property.
