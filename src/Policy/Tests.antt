-- ===== src/Policy/Tests.antt =====
-- Tests of the rules of policy.ts.
use effect_frame.Base.{
  Bool, true, false, Option, none, some, List, [], ◌∷◌, String, ◌==◌, ◌≡◌, ◌↔◌, refl, find?,
  if◌then◌else◌,
}
use effect_frame.Policy.{
  Principal, anonymous, authenticated, Subject, actor, Action, read, send, Verdict, allowed,
  unauthorized, Named, all, any, only_authenticated, for_subjects, decode_subject, decode_by,
  decided, each_of, allow_all,
}
use effect_frame.Policy.Rules.{for_subjects-allowed, ReadsSubject}

-- A tenant's ledger has its tenant as key; the claims name the tenant of the caller.
abbrev tenant_of : String → Option String
tenant_of text = if text == "" then none else some text

abbrev ledgers : List (Named String)
ledgers = record { name = "ledger"; version = 1; decode = tenant_of } ∷ []

abbrev versions : List (Named String)
versions = record { name = "ledger"; version = 2; decode = λ text. none } ∷ ledgers

abbrev same_tenant : Principal String → String → Action → Bool
same_tenant anonymous tenant action = false
same_tenant (authenticated who claims) tenant action = claims == tenant

abbrev ann : Principal String
ann = authenticated "ann" "acme"

abbrev of_tenant : String → Subject
of_tenant tenant = actor (record { contract = "ledger"; version = 1; key = tenant })

abbrev member : Principal String → Subject → Action → Verdict
member = all (only_authenticated ∷ for_subjects versions [] same_tenant ∷ [])

own_tenant : member ann (of_tenant "acme") send ≡ allowed
unfolding all each_of only_authenticated for_subjects decided decode_subject decode_by find?
own_tenant = refl

other_tenant : member ann (of_tenant "other") send ≡ unauthorized "ledger"
unfolding all each_of only_authenticated for_subjects decided decode_subject decode_by find?
other_tenant = refl

abbrev first_or_last : List Verdict → Verdict
first_or_last [] = allowed
first_or_last (verdict ∷ []) = verdict
first_or_last (allowed ∷ verdict ∷ verdicts) = allowed
first_or_last (unauthorized name ∷ verdict ∷ verdicts) = first_or_last (verdict ∷ verdicts)

-- No rule of an empty choice allows, and no rule of an empty conjunction refuses.
no_rules :
    (any first_or_last [] ann (of_tenant "acme") read ≡ unauthorized "ledger")
    × (all [] ann (of_tenant "acme") read ≡ allowed)
unfolding any all each_of
no_rules = (refl, refl)

-- A choice allows by its second rule.
by_second : any first_or_last (member ∷ allow_all ∷ []) ann (of_tenant "other") read ≡ allowed
unfolding any all each_of only_authenticated for_subjects decided decode_subject decode_by find?
by_second = refl

-- The second version of the ledger reads no key, and no request for it is allowed by the first.
for_subjects-allowed_example : (member ann (of_tenant "acme") send ≡ allowed) ↔ (
    Unit {0}
    × ((tenant : String) × ReadsSubject versions [] (of_tenant "acme") tenant
        × (same_tenant ann tenant send ≡ true)))
for_subjects-allowed_example =
    for_subjects-allowed ann (of_tenant "acme") send versions [] same_tenant
