-- ===== src/Db/Jobs/Claim.antt =====
-- `ClaimGatewayJob` of internal/db/gateway_jobs.go. The advisory lock of the transaction lets one
-- claim of a tenant run at a time, so a claim is one step on the tables. Rows that other
-- transactions hold are skipped (FOR UPDATE SKIP LOCKED): `locked` tells which.
use rehydrator.Base.{
  ℕ, Text, codes, ◌+◌, Bool, true, false, not, ◌&&◌, ◌||◌, Option, none, some, List, [], ◌∷◌, ltb,
  leb, ◌==◌, if◌then◌else◌,
}
use rehydrator.Model.Types.{Protocol, is_torrent}
use rehydrator.Db.Rows.{update, first_by}
use rehydrator.Db.Jobs.{
  Job, Row, Tables, queued, submitting, failed, submission_unknown, state_eq, has_id,
}

abbrev pub max_attempts : ℕ
max_attempts = 3

-- the first UPDATE: an interrupted submission is of unknown outcome
unfoldable pub is_interrupted : ℕ → Row → Bool
is_interrupted now r = state_eq r.state submitting && ltb r.next_check_at now

unfoldable pub interrupt : Row → Row
interrupt r = record r {
  job = record (r.job) {
    state = submission_unknown;
    last_error = codes "submission interrupted; inspect TorBox before retrying";
  };
}

-- the second UPDATE
unfoldable pub is_exhausted : Row → Bool
is_exhausted r = state_eq r.state queued && leb max_attempts r.attempts

unfoldable pub exhaust : Row → Row
exhaust r = record r {
  job = record (r.job) { state = failed; last_error = codes "cloud upload attempt limit reached" };
}

unfoldable pub sweep : ℕ → List Row → List Row
unfolding update is_interrupted interrupt is_exhausted exhaust
sweep now rows = update is_exhausted exhaust (update (is_interrupted now) interrupt rows)

abbrev pub text_le : Text → Text → Bool
text_le [] t = true
text_le (c ∷ s) [] = false
text_le (c ∷ s) (d ∷ t) = ltb c d || (c == d && text_le s t)

-- ORDER BY next_check_at, id
unfoldable pub before : Row → Row → Bool
before r s =
    ltb r.next_check_at s.next_check_at || (r.next_check_at == s.next_check_at && text_le r.id s.id)

-- EXISTS(… g.next_submit_at > now())
unfoldable pub gate_closed : ℕ → Option ℕ → Bool
gate_closed now none = false
gate_closed now (some at) = ltb now at

-- $2='' OR protocol=$2
abbrev pub protocol_matches : Option Protocol → Protocol → Bool
protocol_matches none p = true
protocol_matches (some q) p =
    (is_torrent q && is_torrent p) || (not (is_torrent q) && not (is_torrent p))

unfoldable pub is_due : ℕ → Option ℕ → Option Protocol → (Row → Bool) → Row → Bool
unfolding gate_closed
is_due now gate protocol locked r =
    protocol_matches protocol r.protocol
    && not (
        state_eq r.state failed
        || state_eq r.state submission_unknown
        || state_eq r.state submitting)
    && leb r.next_check_at now
    && (not (state_eq r.state queued) || not (gate_closed now gate))
    && not (locked r)

-- What a claim returns: a job to work on, nothing to do, or an error (the transaction rolls back).
pub data Claim : Type 0 where
  claimed : Job → Tables → Claim
  idle : Tables → Claim
  fault : Text → Claim

unfoldable pub postpone : ℕ → Row → Row
postpone at r = record r { next_check_at = at }

unfoldable pub start_submission : ℕ → Row → Row
start_submission now r = record r {
  job = record (r.job) { state = submitting; attempts = r.attempts + 1 };
  next_check_at = now + 300;
}

-- INSERT … ON CONFLICT DO NOTHING with the default now()
abbrev pub insert_gate : ℕ → Option ℕ → ℕ
insert_gate now none = now
insert_gate now (some at) = at

-- a queued row that was selected
unfoldable pub take_queued : ℕ → ℕ → Tables → Row → Claim
unfolding update postpone start_submission
take_queued now interval t r =
    let at = insert_gate now t.gate in
    if leb max_attempts r.attempts
    then fault (codes "cloud submission attempt limit reached")
    else if leb at now
    then claimed (record (r.job) { attempts = r.attempts + 1 })
        (record {
          jobs = update (has_id r.id) (start_submission now) t.jobs;
          gate = some (now + interval);
        })
    else idle (record { jobs = update (has_id r.id) (postpone (now + 60)) t.jobs; gate = some at })

-- the rest of the transaction for the row that was selected
unfoldable pub take_row : ℕ → ℕ → Tables → Row → Claim
unfolding update postpone take_queued
take_row now interval t r =
    if state_eq r.state queued
    then take_queued now interval t r
    else claimed r.job (record t { jobs = update (has_id r.id) (postpone (now + 300)) t.jobs })

abbrev pub take_first : ℕ → ℕ → Tables → Option Row → Claim
take_first now interval t none = idle t
take_first now interval t (some r) = take_row now interval t r

unfoldable pub claim_job : ℕ → ℕ → Option Protocol → (Row → Bool) → Tables → Claim
unfolding sweep first_by is_due before take_row
claim_job now interval protocol locked t =
    let swept = record t { jobs = sweep now t.jobs } in
    take_first now interval swept (first_by before (is_due now t.gate protocol locked) swept.jobs)
