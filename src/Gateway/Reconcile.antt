-- ===== src/Gateway/Reconcile.antt =====
-- `Reconcile` of internal/gateway/service.go: one claimed job is submitted to the provider, or its
-- placement is polled. The calls of the provider are arguments: `submit` stands for `s.Source` with
-- `s.torrent.Submit`, or `s.provider.Create`, and `poll` for the `Get` of the job's protocol.
use rehydrator.Base.{
  ℕ, is_some, zero, suc, ◌+◌, ◌-◌, ◌*◌, ◌%◌, ◌≤◌, ◌<◌, min, ◌≡◌, refl, sym, ap, ◌∙◌, subst, ◌≢◌,
  ◌↔◌, ◌⊎◌, inl, inr, Bool, true, false, not, ◌&&◌, ◌||◌, Option, none, some, List, [], ◌∷◌, ◌++◌,
  map, append-nil, append_assoc, arith, ltb, leb, ◌==◌, if◌then◌else◌, ==_iff, ==_refl, leb→le,
  le→leb, lt→ltb, Bool-cases, Option-cases, &&-eq-true, ||-eq-false, length, take, drop, all, any,
  length-append, length-drop, take-append, drop-append, All, All-append, ℤ, pos, negsuc,
  is_negative, int_eq, eq_of_int_eq, Text, codes, text_eq, eq_of_text_eq, text_eq_refl, text_eq_iff,
  text_eq_swap,
}
use rehydrator.Torbox.Types.{UsenetDownload}
use rehydrator.Torbox.Failure.{failure_message, ready}
use rehydrator.Torbox.Catalog.{validate_files}
use rehydrator.Db.Jobs.{
  Job, Row, Tables, ProviderStatus, queued, downloading, mounting, completed, missing, failed,
  submission_unknown, state_eq,
}
use rehydrator.Db.Jobs.Claim.{Claim, claimed, idle, fault, claim_job}
use rehydrator.Db.Jobs.Statements.{
  update_job, defer_submission, record_status, record_check_failure, claim_unknown, put_off,
  resolve_unknown, record_lookup,
}
use rehydrator.Gateway.Catalog.{same_catalog}
pub mod Decide
pub mod Absence

pub data Role : Type 0 where
  combined gateway_role controller_role : Role

-- `missing_limit` of the source is the literal 3, and so is the number of attempts.
pub record Config : Type 0 where
  pub role : Role
  pub recover_missing : Bool
  pub submit_interval : ℕ
  pub poll_interval : ℕ

-- `not_started` is an error that is ErrSubmissionNotStarted, `unknown` any other.
pub data Submission : Type 0 where
  accepted : ℕ → Submission
  not_started : Text → Submission
  unknown : Text → Submission

pub data Polled : Type 0 where
  unreachable : Text → Polled
  answered : UsenetDownload → Bool → Polled

-- the job after a submission that was started
unfoldable pub settle : Job → Submission → Job
settle j (accepted id) = record j {
  provider_id = id;
  state = downloading;
  last_error = [];
  missing_checks = 0;
}
settle j (not_started e) = j
settle j (unknown e) = record j {
  state = submission_unknown;
  last_error = codes "cloud add outcome unknown; inspect TorBox before retrying: " ++ e;
}

unfoldable pub finish_submission : Config → ℕ → Job → Submission → List Row → List Row
unfolding settle
finish_submission c now j (accepted id) rows =
    update_job now (settle j (accepted id)) c.poll_interval rows
finish_submission c now j (not_started e) rows = defer_submission now j.id e rows
finish_submission c now j (unknown e) rows =
    update_job now (settle j (unknown e)) c.poll_interval rows

-- What the poll of a claimed job leads to: an update of the row after which the pass ends, the same
-- with the job queued again for a recovery, an error with no update, or a published catalog.
pub data Decision : Type 0 where
  store : Job → ℕ → Decision
  recover : Job → Decision
  refuse : Decision
  publish : Job → Decision

abbrev pub is_false : Option Bool → Bool
is_false none = false
is_false (some b) = not b

-- !found || (download.Present != nil && !*download.Present && …)
unfoldable pub is_absent : UsenetDownload → Bool → Bool
is_absent d found =
    not found
    || (is_false d.present
        && (text_eq d.state (codes "cached") || text_eq d.state (codes "completed")))

unfoldable pub note_missing : Job → Job
note_missing j = record j {
  missing_checks = if ltb j.missing_checks 3 then j.missing_checks + 1 else j.missing_checks;
  state = missing;
  last_error = codes "TorBox cloud placement is absent; awaiting confirmation";
}

unfoldable pub decide_missing : Config → Job → Decision
unfolding note_missing
decide_missing c j =
    let m = note_missing j in
    if leb 3 m.missing_checks && c.recover_missing
    then if leb 3 m.attempts
      then store
          (record m {
            state = failed;
            last_error = codes "cloud release recovery attempt limit reached";
          })
          300
      else recover (record m {
        state = queued;
        last_error = codes "confirmed missing cloud placement; saved source queued for recovery";
      })
    else store m 300

unfoldable pub note_found : Job → UsenetDownload → Job
note_found j d = record j {
  missing_checks = 0;
  name = if text_eq d.name [] then j.name else d.name;
}

unfoldable pub decide_found : Config → Job → UsenetDownload → Decision
unfolding note_found
decide_found c j d =
    let k = note_found j d in
    if not (ready d)
    then store (record k { state = downloading; last_error = [] }) c.poll_interval
    else if not (validate_files d.files)
    then refuse
    else if ltb 0 (length j.files) && not (same_catalog j.files d.files)
    then store
        (record k {
          state = failed;
          last_error =
              codes "provider catalog changed; original import paths cannot be restored safely";
        })
        3600
    else if state_eq j.state completed
    then store (record k { files = d.files; last_error = [] }) 900
    else publish (record k { files = d.files; state = mounting; last_error = [] })

abbrev pub fail_or : Option Text → Job → Decision → Decision
fail_or none j rest = rest
fail_or (some message) j rest =
    store (record j { state = failed; last_error = message; missing_checks = 0 }) 3600

-- the branches after `RecordProviderStatus`
unfoldable pub decide : Config → Job → UsenetDownload → Bool → Decision
decide c j d found =
    fail_or (if found then failure_message d else none) j
      (if is_absent d found then decide_missing c j else decide_found c j d)

-- `Status` of internal/torbox/telemetry.go
unfoldable pub status : ℕ → ℕ → UsenetDownload → Bool → ProviderStatus
status now id d found = record {
  provider_id = id;
  checked_at = now;
  last_attempt_at = now;
  check_failed = false;
  found = found;
  state =
      if not found
      then []
      else if is_some (failure_message d)
      then codes "failed"
      else if text_eq d.raw_state []
      then d.state
      else d.raw_state;
  finished = if found then d.finished else none;
  present = if found then d.present else none;
  cached = if found then d.cached else none;
  ready = found && ready d;
}

-- the job that the update of a decision writes; a refused catalog is not written
abbrev pub decided : Job → Decision → Job
decided j (store k delay) = k
decided j (recover k) = k
decided j refuse = j
decided j (publish k) = k

-- the job after a poll
unfoldable pub after_poll : Config → Job → Polled → Job
after_poll c j (unreachable e) = record j { last_error = e; missing_checks = 0 }
after_poll c j (answered d found) = decided j (decide c j d found)
