-- ===== src/Gateway/Reconcile/Absence.antt =====
-- How many polls in a row must miss a placement before the job is queued again.
use rehydrator.Base.{
  ℕ, suc, ◌≤◌, ◌≡◌, Bool, true, false, Option, none, some, List, [], ◌∷◌, arith, if◌then◌else◌, All,
  Text,
}
use rehydrator.Torbox.Types.{UsenetDownload}
use rehydrator.Torbox.Failure.{failure_message}
use rehydrator.Torbox.Catalog.{validate_files}
use rehydrator.Db.Jobs.{Job}
use rehydrator.Gateway.Reconcile.{
  Config, decide, decide_missing, decide_found, fail_or, is_absent, Polled, unreachable, answered,
  decided, after_poll,
}
use rehydrator.Gateway.Reconcile.Decide.{requeues, decide-requeues}

-- the polls of a job, the earliest first
unfoldable pub follow : Config → Job → List Polled → Job
follow c j [] = j
follow c j (p ∷ ps) = follow c (after_poll c j p) ps

abbrev pub misses : Polled → Bool
misses (unreachable e) = false
misses (answered d found) = is_absent d found

-- the number of misses since the last poll that was none
unfoldable pub misses_in_a_row : ℕ → List Polled → ℕ
misses_in_a_row n [] = n
misses_in_a_row n (p ∷ ps) = misses_in_a_row (if misses p then suc n else 0) ps

-- The clients' `Get` answers with valid file lists only.
abbrev pub HasValidFiles : Polled → Type 0
HasValidFiles (unreachable e) = Unit
HasValidFiles (answered d found) = validate_files d.files ≡ true

checks_missing :
    (c : Config) (j : Job) → (decided j (decide_missing c j)).missing_checks ≤ suc j.missing_checks
unfolding decide_missing
checks_missing c j = ground arith

checks_found :
    (c : Config) (j : Job) (d : UsenetDownload)
    → validate_files d.files ≡ true
    → (decided j (decide_found c j d)).missing_checks ≡ 0
unfolding decide_found
checks_found c j d v = ground arith

checks_decided :
    (c : Config) (j : Job) (d : UsenetDownload) (o : Option Text) (b : Bool)
    → validate_files d.files ≡ true
    → (decided j
        (fail_or o j (if b then decide_missing c j else decide_found c j d))).missing_checks
      ≤ (if b then suc j.missing_checks else 0)
checks_decided c j d (some m) b v = omega arith
checks_decided c j d none true v = checks_missing c j
checks_decided c j d none false v = omega (arith, checks_found c j d v)

checks_after_poll :
    (c : Config) (j : Job) (p : Polled)
    → HasValidFiles p
    → (after_poll c j p).missing_checks ≤ (if misses p then suc j.missing_checks else 0)
unfolding after_poll decide
checks_after_poll c j (unreachable e) v = omega arith
checks_after_poll c j (answered d found) v =
    checks_decided c j d (if found then failure_message d else none) (is_absent d found) v

checks_follow :
    (c : Config) (j : Job) (n : ℕ) (ps : List Polled)
    → All HasValidFiles ps
    → j.missing_checks ≤ n
    → (follow c j ps).missing_checks ≤ misses_in_a_row n ps
unfolding follow misses_in_a_row
checks_follow c j n [] v h = h
checks_follow c j n (p ∷ ps) v h =
    checks_follow c (after_poll c j p) _ ps v.1 (step (misses p) (checks_after_poll c j p v.0))
  where
    step :
        (b : Bool) {k : ℕ}
        → k ≤ (if b then suc j.missing_checks else 0)
        → k ≤ (if b then suc n else 0)
    step true l = omega arith
    step false l = l

-- A job with no missing checks, as after a submission, is polled any number of times, each answer
-- with a valid file list. If the next poll writes a row that is QUEUED, then that poll misses the
-- placement, and so did at least the two polls right before it.
pub three_misses :
    (c : Config) (j : Job) (ps : List Polled) (d : UsenetDownload) (found : Bool)
    → j.missing_checks ≡ 0
    → All HasValidFiles ps
    → requeues (decide c (follow c j ps) d found) ≡ true
    → (is_absent d found ≡ true) × (2 ≤ misses_in_a_row 0 ps)
three_misses c j ps d found z v h =
    let needs = (decide-requeues c (follow c j ps) d found).0 h in
    (needs.1, omega (arith, needs.2, checks_follow c j 0 ps v))
