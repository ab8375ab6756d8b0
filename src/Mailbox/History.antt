-- ===== src/Mailbox/History.antt =====
-- Histories of one mailbox: any sequence of the operations that change its log.
use effect_frame.Base.{
  ℕ, ◌+◌, ◌≡◌, ap, ◌∙◌, Option, none, some, List, [], ◌∷◌, String, arith, find?, Option-cases, inl,
  inr,
}
use effect_frame.Mailbox.{
  Entry, Log, AppendInput, has_id, append_to_log, commit_to_log, advance, empty_log,
}
use effect_frame.Mailbox.Settle.{commit_to_log_unknown, commit_to_log_known}
use effect_frame.Mailbox.Valid.{
  IsValid, committed_revision, empty_log-IsValid, append-IsValid, commit-IsValid, advance-IsValid,
  next_revision-committed,
}

pub data Call : Type 0 where
  appends : AppendInput → Call
  commits : String → String → Option ℕ → Call
  advances : String → Option ℕ → Call

unfoldable pub step : Log → Call → Log
step log (appends input) = (append_to_log log input).1
step log (commits id state wake) = (commit_to_log log id state wake).1
step log (advances state wake) = (advance log state wake).1

unfoldable pub run : Log → List Call → Log
run log [] = log
run log (c ∷ cs) = run (step log c) cs

pub step-IsValid : (log : Log) (c : Call) → IsValid log → IsValid (step log c)
unfolding step
step-IsValid log (appends input) v = append-IsValid log input v
step-IsValid log (commits id state wake) v = commit-IsValid log id state wake v
step-IsValid log (advances state wake) v = advance-IsValid log state wake v

pub run-IsValid : (log : Log) (cs : List Call) → IsValid log → IsValid (run log cs)
unfolding run
run-IsValid log [] v = v
run-IsValid log (c ∷ cs) v = run-IsValid (step log c) cs (step-IsValid log c v)

-- After any history of appends, commits and advances from the empty log: admissions rise strictly
-- from 1 and stay below the next one, no two entries share a command ID, and each receipt names its
-- entry's command and admission with a revision between 1 and the committed revision.
pub run-empty-IsValid : (cs : List Call) → IsValid (run empty_log cs)
run-empty-IsValid cs = run-IsValid empty_log cs empty_log-IsValid

-- The committed revision of a log, 0 before the first commit.
abbrev pub revision_of : Log → ℕ
revision_of log = committed_revision log.committed

abbrev pub hits : Option Entry → ℕ
hits none = 0
hits (some e) = 1

-- What one call adds to the revision: a commit of a known command and an advance add one.
abbrev pub revisions_by : Log → Call → ℕ
revisions_by log (appends input) = 0
revisions_by log (commits id state wake) = hits (find? (has_id id) log.entries)
revisions_by log (advances state wake) = 1

-- An append leaves the committed revision alone, an advance and a commit of a held command add
-- exactly one to it, and a commit of an unknown command adds nothing.
revision-step :
    (log : Log) (c : Call) → revision_of (step log c) ≡ revision_of log + revisions_by log c
unfolding step
revision-step log (appends input) = unfold append_to_log in ground arith
revision-step log (commits id state wake) = elim (Option-cases (find? (has_id id) log.entries)) [
  | inl missed ↦
      ap (λ x. revision_of x.1) (commit_to_log_unknown log id state wake missed)
      ∙ omega (arith, ap hits missed)
  | inr (found, hit) ↦
      ap (λ x. revision_of x.1) (commit_to_log_known log id state wake found hit)
      ∙ omega (arith, ap hits hit, next_revision-committed log.committed)
]
revision-step log (advances state wake) =
    unfold advance in omega (arith, next_revision-committed log.committed)
