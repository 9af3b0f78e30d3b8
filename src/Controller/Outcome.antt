-- ===== src/Controller/Outcome.antt =====
-- What the handling of a row ends with, and the statement that records it.
use rehydrator.Base.{ℕ, ◌+◌, List, [], ◌∷◌, ◌++◌, Text, codes}
use rehydrator.Db.Media.{Item}
use rehydrator.Db.Media.Marks.{
  mark_waiting_visibility, mark_available, mark_failed, mark_requested_metadata_pending,
  mark_source_recovery_required,
}
use rehydrator.Db.Media.Lifecycle.{kept_or}
use rehydrator.Controller.{Options, Fault, recovery_required, other_fault}

pub data Verdict : Type 0 where
  metadata_pending : Verdict
  recovery : List Text → Verdict
  failure : Text → Verdict
  waiting : Text → Verdict
  settled : Text → Verdict

-- the statement of the outcome for the row `id` at the time `now`
unfoldable pub record_outcome : Options → ℕ → Text → Verdict → List Item → List Item
record_outcome o now id metadata_pending rows = mark_requested_metadata_pending now id rows
record_outcome o now id (recovery reasons) rows = mark_source_recovery_required now id reasons rows
record_outcome o now id (failure error) rows =
    kept_or rows (mark_failed now id error o.max_retries rows)
record_outcome o now id (waiting error) rows =
    mark_waiting_visibility now id error (now + o.visibility_retry) rows
record_outcome o now id (settled hash) rows = mark_available now id hash (now + o.cache_grace) rows

-- waitAfterStatusError
abbrev pub after_status_error : Fault → Verdict
after_status_error (recovery_required error) = recovery (error ∷ [])
after_status_error (other_fault error) =
    waiting (codes "provider status check failed; retrying without resubmission: " ++ error)
