-- ===== src/Host/Refreshes.antt =====
-- The refreshes that the reply to a command of host.ts carries.
use effect_frame.Base.{
  ℕ, Option, none, some, List, [], ◌∷◌, map, String, ◌≡◌, refl, sym, ap, ◌∙◌, eq_of_some,
}
use effect_frame.Vocabulary.{Address, QueryKey, Result, failure, success, DurableReceipt}
use effect_frame.Policy.{Principal, Resolved}
use effect_frame.Serving
use effect_frame.Serving.{
  QueryBatchResult, result_slot, failure_slot, Refreshed, refreshed, refresh_failed, Mode, single,
  batched,
}
use effect_frame.Serving.Answers.{answer}
use effect_frame.Host.{
  RemoteFailure, HostedInstance, Instances, Moments, HostedQuery, Answer, unreached, failed, defect,
  Built,
}
use effect_frame.Host.Transport.{
  read_from, refresh_for, refresh_from, send_reply, after_send, send_to, send_command, after_call,
  call_to, call_command, with_value, answer_or_defect,
}
use effect_frame.Host.Stale.{
  batch_stale-answers, AllReadEach, read_from-each, stale_answers, dependents-stale_keys,
}

-- A command that did not commit carries no refresh.
abbrev pub when_committed : Option ℕ → List Refreshed → List Refreshed
when_committed none answers = []
when_committed (some revision) answers = answers

module _ {Error : Type 0} where
  -- An answer that carries a receipt, with its refreshes.
  abbrev pub Carries : {A : Type 0} → Answer Error (A × List Refreshed) → List Refreshed → Type 0
  Carries (Answer.answered (a, answers)) expected = answers ≡ expected
  Carries (unreached error) expected = Unit
  Carries (failed error) expected = Unit
  Carries defect expected = Unit

  abbrev pub CarriesSent : Answer Error (DurableReceipt × List Refreshed) → List Refreshed → Type 0
  CarriesSent (Answer.answered (receipt, answers)) expected =
      answers ≡ when_committed receipt.committed expected
  CarriesSent (unreached error) expected = Unit
  CarriesSent (failed error) expected = Unit
  CarriesSent defect expected = Unit

module _ {Claims Instance Projection Error : Type 0} (digits : ℕ → String)
    (canonicalize : String → Option String) (hosted : HostedInstance Instance Projection Error)
    (host : Built Claims Instance) (principal : Principal Claims)
    (one : Serving.Implementation → List String → String → QueryBatchResult) where
  abbrev expected :
      String
      → List QueryKey
      → Option (List (Resolved Claims (HostedQuery Instance)))
      → Moments Instance
      → List Refreshed
  expected = stale_answers canonicalize one principal

  refresh_from-answers :
      (serving : Option (List (Resolved Claims (HostedQuery Instance)))) (contract : String)
      (active : List QueryKey) (seen : Moments Instance) (answers : List Refreshed)
      → AllReadEach one serving
      → refresh_from digits canonicalize hosted host principal serving contract active seen
        ≡ some answers
      → answers ≡ expected contract active serving seen
  refresh_from-answers none contract [] seen answers each h = sym (eq_of_some _ _ h)
  refresh_from-answers none contract (key ∷ active) seen answers each h = sym (eq_of_some _ _ h)
  refresh_from-answers (some queries) contract [] seen answers each h = sym (eq_of_some _ _ h)
  refresh_from-answers (some queries) contract (key ∷ active) seen answers each h =
      let current = map (read_from seen) queries in
      batch_stale-answers current principal canonicalize one _ answers
        (read_from-each one seen queries each) h
      ∙ ap (λ keys. map (answer current principal canonicalize one keys) keys)
          (dependents-stale_keys seen principal contract queries (key ∷ active))

  carried :
      {A : Type 0} (a : A) (r : Option (List Refreshed)) (wanted : List Refreshed)
      → ((answers : List Refreshed) → r ≡ some answers → answers ≡ wanted)
      → Carries {Error = Error} (with_value a (answer_or_defect r)) wanted
  carried a none wanted h = tt
  carried a (some answers) wanted h = h answers refl

  sent_carried :
      (receipt : DurableReceipt) (r : Option (List Refreshed)) (wanted : List Refreshed)
      → ((answers : List Refreshed)
          → r ≡ some answers
          → answers ≡ when_committed receipt.committed wanted)
      → CarriesSent {Error = Error} (with_value receipt (answer_or_defect r)) wanted
  sent_carried receipt none wanted h = tt
  sent_carried receipt (some answers) wanted h = h answers refl

  module _ (address : Address) (active : List QueryKey) (each : AllReadEach one host.serving) where
    abbrev stale : Moments Instance → List Refreshed
    stale = expected address.contract active host.serving

    send_reply-carries :
        (seen : Moments Instance) (receipt : DurableReceipt) (committed : Option ℕ)
        → receipt.committed ≡ committed
        → CarriesSent
            (send_reply digits canonicalize hosted host principal address active seen receipt
              committed)
            (stale seen)
    unfolding refresh_for
    send_reply-carries seen receipt none e = rw e refl
    send_reply-carries seen receipt (some revision) e =
        sent_carried receipt _ (stale seen) (λ answers h.
          refresh_from-answers host.serving address.contract active seen answers each h
          ∙ ap (λ o. when_committed o (stale seen)) (sym e))

    after_send-carries :
        (seen : Moments Instance) (result : Result Error DurableReceipt)
        → CarriesSent
            (after_send digits canonicalize hosted host principal address active seen result)
            (stale seen)
    after_send-carries seen (failure error) = tt
    after_send-carries seen (success receipt) =
        send_reply-carries seen receipt receipt.committed refl

    after_call-carries :
        (seen : Moments Instance) (result : Result Error Projection)
        → Carries
            (after_call digits canonicalize hosted host principal address active seen result)
            (stale seen)
    unfolding refresh_for
    after_call-carries seen (failure error) = tt
    after_call-carries seen (success projection) =
        carried projection _ (stale seen) (λ answers h.
          refresh_from-answers host.serving address.contract active seen answers each h)

    module _ (command_id payload : String) (meanwhile : Instances Instance → Moments Instance) where
      send_to-carries :
          (p : Result RemoteFailure Instance × Instances Instance)
          → let (answer, after) =
              send_to digits canonicalize hosted host principal address command_id payload active
                meanwhile p in
            CarriesSent answer (stale (after ∷ meanwhile after))
      send_to-carries (failure error, instances) = tt
      send_to-carries (success instance, instances) =
          after_send-carries _ (hosted.send instance command_id payload).1

      call_to-carries :
          (p : Result RemoteFailure Instance × Instances Instance)
          → let (answer, after) =
              call_to digits canonicalize hosted host principal address command_id payload active
                meanwhile p in
            Carries answer (stale (after ∷ meanwhile after))
      call_to-carries (failure error, instances) = tt
      call_to-carries (success instance, instances) =
          after_call-carries _ (hosted.call instance command_id payload).1

  -- The reply to a call carries them too: a call returns once its command has committed.
  pub call_command-carries :
      (address : Address) (command_id payload : String) (active : List QueryKey)
      (meanwhile : Instances Instance → Moments Instance) (instances : Instances Instance)
      → AllReadEach one host.serving
      → let (answer, after) =
          call_command digits canonicalize hosted host principal address command_id payload active
            meanwhile instances in
        Carries answer (
          stale_answers canonicalize one principal address.contract active host.serving
            (after ∷ meanwhile after))
  unfolding call_command
  call_command-carries address command_id payload active meanwhile instances each =
      call_to-carries address active each command_id payload meanwhile _

  -- If every query of a host answers each argument by a function of it and of the others of its request, then
  -- a receipt that a command is answered with carries, once the command has committed, an answer for each of
  -- the caller's active keys whose query declares a dependency on the command's contract, in their order and
  -- nothing else: what a request of those keys together is answered, its handlers reading the instances as
  -- the command left them and at the moments that follow. Before the command has committed it carries none.
  pub send_command-carries :
      (address : Address) (command_id payload : String) (active : List QueryKey)
      (meanwhile : Instances Instance → Moments Instance) (instances : Instances Instance)
      → AllReadEach one host.serving
      → let (answer, after) =
          send_command digits canonicalize hosted host principal address command_id payload active
            meanwhile instances in
        CarriesSent answer (
          stale_answers canonicalize one principal address.contract active host.serving
            (after ∷ meanwhile after))
  unfolding send_command
  send_command-carries address command_id payload active meanwhile instances each =
      send_to-carries address active each command_id payload meanwhile _
