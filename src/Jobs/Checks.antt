-- ===== src/Jobs/Checks.antt =====
-- The constants and the checks of requests of crates/control/src/jobs.rs.
use hostlet_app.Base.{ℕ, Bool, not, ◌&&◌, ◌||◌, Option, none, some, leb, ◌==◌, all, if◌then◌else◌}
use hostlet_app.Base.Text.{
  Text, codes, text_eq, len, bytes, is_empty, is_ascii_digit, is_ascii_graphic,
}
use hostlet_app.Api.{ApiError, Result, conflict}
use hostlet_app.Jobs.Model.{Database}
use hostlet_app.Jobs.Messages.{CompletionOutcome}

abbrev pub job_kind : Text
job_kind = codes "foundation_bookkeeping"

abbrev pub job_operation : Text
job_operation = codes "build"

abbrev pub max_secret_refs : ℕ
max_secret_refs = 32

-- A transaction ends with a database and an answer; by rollback, with the database it began with.
abbrev pub Tx : Type 0 → Type 0
Tx A = Database × Result A

abbrev pub fenced : ApiError
fenced = conflict "job_fenced"

unfoldable pub valid_worker_id : Text → Bool
unfolding bytes len
valid_worker_id value =
    not (is_empty value) && (leb (len value) 128 && all is_ascii_graphic (bytes value))

unfoldable pub valid_source_commit : Text → Bool
unfolding bytes len
valid_source_commit value =
    (len value == 40 || len value == 64)
    && all (λ b. is_ascii_digit b || (leb b'a' b && leb b b'f')) (bytes value)

-- The outcomes that a worker may report.
pub data Outcome : Type 0 where
  succeeded failed retriable : Outcome

-- `valid_outcome`, with the accepted pair of texts read as an enum.
unfoldable pub valid_outcome : CompletionOutcome → Option Outcome
unfolding text_eq
valid_outcome o =
    if text_eq o.state (codes "succeeded") && text_eq o.code (codes "bookkeeping_complete")
    then some succeeded
    else if text_eq o.state (codes "failed") && text_eq o.code (codes "bookkeeping_failed")
    then some failed
    else if text_eq o.state (codes "retriable") && text_eq o.code (codes "retry_requested")
    then some retriable
    else none
