-- ===== src/Gateway/Budget/Bounded.antt =====
-- However the replicas interleave, a job is added at the provider three times at most.
use rehydrator.Db.Jobs.{submitting, Row, has_id, queued, state_eq}
use rehydrator.Gateway.Budget.{
  defer, abandon, upload, find_nothing, claim, TorrentMetadata, add, Protocol, next, write,
  asks_recovery, pins, cleaned, cleans, finishes, leases, records_failure, records_status,
  records_lookup, resolves, puts_off, wakes, recategorises, hides, updates, System, count, Pick,
  first, later, Write, Step, Reach,
}
use rehydrator.Gateway.Budget.{here, next}
use rehydrator.Db.Rows.{rows_affected, update, All-update}
use rehydrator.Base.{
  All-map, ℕ, suc, ◌+◌, ◌≤◌, ◌≡◌, refl, subst, inl, inr, Bool, false, ◌&&◌, List, [], arith, ◌==◌,
  if◌then◌else◌, Bool-cases, All, All-append, Text, text_eq,
}
use rehydrator.Db.Jobs.Claim.{max_attempts, claimed, idle}
use rehydrator.Db.Jobs.Statements.{
  update_job, updated, hide_job, set_category, wake_job, wake, defer_submission, deferred, put_off,
  resolve_unknown, resolved, record_lookup, record_status, record_check_failure,
}
use rehydrator.Db.Jobs.Mounts.{
  lease_mount, finish_mount, finished_mount, request_cleanup, finish_cleanup, pin_release_folder,
  pinned, request_recovery, insert_source, conflicts, new_row, revealed,
}
use rehydrator.Db.Jobs.Budget.{
  IsFunded, Funded, Unique, Funded-update, Unique-update, Unique-snoc, ClaimKeeps, claim_job-keeps,
  IsNeutral,
}

-- The requests made and the requests owed for a job.
abbrev spent_of : System → Text → ℕ
spent_of s id = count id s.uploads + count id s.pending

-- Every attempt of a row pays for its requests, and the IDs of rows differ.
pub record IsPaid (s : System) : Type 0 where
  pub funded : Funded (spent_of s) s.tables.jobs
  pub unique : Unique s.tables.jobs

abbrev Both : (Text → ℕ) → List Row → Type 0
Both spent rows = Funded spent rows × Unique rows

neutral :
    (spent : Text → ℕ) (test : Row → Bool) (change : Row → Row) (rows : List Row)
    → IsNeutral change
    → Both spent rows
    → Both spent (update test change rows)
neutral spent test change rows n b =
    (Funded-update spent test change rows n b.0, Unique-update test change rows (λ r. (n r).0) b.1)

Write-Both :
    (spent : Text → ℕ) {now : ℕ} {rows rows' : List Row}
    → Write now rows rows'
    → Both spent rows
    → Both spent rows'
unfolding update_job updated hide_job set_category wake_job wake put_off resolve_unknown resolved
    record_lookup record_status record_check_failure lease_mount finish_mount finished_mount
    request_cleanup finish_cleanup pin_release_folder pinned request_recovery
Write-Both spent (updates j delay) b = neutral spent _ _ _ (λ r. (refl, refl)) b
Write-Both spent (hides id) b = neutral spent _ _ _ (λ r. (refl, refl)) b
Write-Both spent (recategorises h c) b = neutral spent _ _ _ (λ r. (refl, refl)) b
Write-Both spent (wakes id) b = neutral spent _ _ _ (λ r. (refl, refl)) b
Write-Both spent (puts_off id) b = neutral spent _ _ _ (λ r. (refl, refl)) b
Write-Both spent (resolves j id) b = neutral spent _ _ _ (λ r. (refl, refl)) b
Write-Both spent (records_lookup id d) b = neutral spent _ _ _ (λ r. (refl, refl)) b
Write-Both spent (records_status j p) b = neutral spent _ _ _ (λ r. (refl, refl)) b
Write-Both spent (records_failure j) b = neutral spent _ _ _ (λ r. (refl, refl)) b
Write-Both spent (leases id) b = neutral spent _ _ _ (λ r. (refl, refl)) b
Write-Both spent (finishes j d) b = neutral spent _ _ _ (λ r. (refl, refl)) b
Write-Both spent (cleans id) b = neutral spent _ _ _ (λ r. (refl, refl)) b
Write-Both spent (cleaned j) b = neutral spent _ _ _ (λ r. (refl, refl)) b
Write-Both spent (pins j f) b = neutral spent _ _ _ (λ r. (refl, refl)) b
Write-Both spent (asks_recovery j) b = neutral spent _ _ _ (λ r. (refl, refl)) b

Funded-le :
    (spent spent' : Text → ℕ) (rows : List Row)
    → ((k : Text) → spent' k ≤ spent k)
    → Funded spent rows
    → Funded spent' rows
Funded-le spent spent' rows le =
    All-map (IsFunded spent) (IsFunded spent') rows
      (λ r f. record { paid = omega (arith, le r.id, f.paid); capped = f.capped })

count-Pick :
    {id : Text} {ks rest : List Text} (k : Text)
    → Pick id ks rest
    → count k ks ≡ (if text_eq k id then suc (count k rest) else count k rest)
count-Pick k first = refl
count-Pick k (later p) = ground (arith, count-Pick k p)

defer-Both :
    (spent spent' : Text → ℕ) (now : ℕ) (id reason : Text) (rows : List Row)
    → ((k : Text) → (if text_eq k id then suc (spent' k) else spent' k) ≤ spent k)
    → Both spent rows
    → Both spent' (defer_submission now id reason rows)
unfolding defer_submission deferred
defer-Both spent spent' now id reason rows le b = (
  All-update (IsFunded spent) (IsFunded spent') (λ r. has_id id r && state_eq r.state submitting)
      (deferred now reason)
      (λ r f t. record {
        paid = ground (arith, le r.id, f.paid, f.capped);
        capped = omega (arith, f.capped);
      })
      (λ r f t. record { paid = ground (arith, le r.id, f.paid); capped = f.capped }) rows b.0,
  Unique-update _ _ rows (λ r. refl) b.1,
)

insert-Both :
    (spent : Text → ℕ) (now : ℕ) (id category digest filename : Text) (protocol : Protocol)
    (s : TorrentMetadata) (rows : List Row)
    → spent id ≡ 0
    → All (λ r. text_eq r.id id ≡ false) rows
    → Both spent rows
    → Both spent (insert_source now id category digest filename protocol s rows)
unfolding insert_source new_row revealed
insert-Both spent now id category digest filename protocol s rows z new b =
    elim (Bool-cases (rows_affected (conflicts category digest protocol s) rows == 0)) [
      | inl e ↦ rw e (
        All-append (IsFunded spent) rows _ b.0
            (record { paid = omega (arith, z); capped = omega arith }, tt),
        Unique-snoc rows _ new b.1,
      )
      | inr e ↦ rw e (neutral spent _ _ rows (λ r. (refl, refl)) b)
    ]

Step-IsPaid : {s t : System} → Step s t → IsPaid s → IsPaid t
Step-IsPaid {s} (write now w) p =
    let b = Write-Both (spent_of s) w (p.funded, p.unique) in record { funded = b.0; unique = b.1 }
Step-IsPaid {s} (add now id category digest filename protocol source new) p =
    let b =
      insert-Both (spent_of s) now id category digest filename protocol source s.tables.jobs
        (omega (arith, new.not_uploaded, new.not_pending)) new.no_row (p.funded, p.unique) in
    record { funded = b.0; unique = b.1 }
Step-IsPaid {s} (claim {t = t} {j = j} now interval protocol locked e) p =
    let c : ClaimKeeps (spent_of s) (claimed j t) =
      subst (ClaimKeeps (spent_of s)) e
        (claim_job-keeps (spent_of s) now interval protocol locked s.tables p.funded p.unique) in
    record {
      funded =
          Funded-le _ _ t.jobs
            (λ k. elim (Bool-cases (state_eq j.state queued)) [
              | inl q ↦ rw q (ground arith)
              | inr q ↦ rw q (omega arith)
            ])
            c.0;
      unique = c.1;
    }
Step-IsPaid {s} (find_nothing {t = t} now interval protocol locked e) p =
    let c : ClaimKeeps (spent_of s) (idle t) =
      subst (ClaimKeeps (spent_of s)) e
        (claim_job-keeps (spent_of s) now interval protocol locked s.tables p.funded p.unique) in
    record { funded = c.0; unique = c.1 }
Step-IsPaid {s} (upload {rest = rest} id pick) p = record {
  funded = Funded-le (spent_of s) _ s.tables.jobs (λ k. ground (arith, count-Pick k pick)) p.funded;
  unique = p.unique;
}
Step-IsPaid {s} (abandon id pick) p = record {
  funded = Funded-le (spent_of s) _ s.tables.jobs (λ k. ground (arith, count-Pick k pick)) p.funded;
  unique = p.unique;
}
Step-IsPaid {s} (defer now id reason pick) p =
    let b =
      defer-Both (spent_of s) _ now id reason s.tables.jobs (λ k. ground (arith, count-Pick k pick))
        (p.funded, p.unique) in
    record { funded = b.0; unique = b.1 }

pub Reach-IsPaid : {s t : System} → IsPaid s → Reach s t → IsPaid t
Reach-IsPaid p here = p
Reach-IsPaid p (next r st) = Step-IsPaid st (Reach-IsPaid p r)

-- At the start no request was made and no submission is under way.
pub record IsInitial (s : System) : Type 0 where
  pub no_uploads : s.uploads ≡ []
  pub no_pending : s.pending ≡ []
  pub capped : All (λ r. r.attempts ≤ max_attempts) s.tables.jobs
  pub unique : Unique s.tables.jobs

IsInitial-IsPaid : {s : System} → IsInitial s → IsPaid s
IsInitial-IsPaid {s} i = record {
  funded =
      All-map (λ r. r.attempts ≤ max_attempts) (IsFunded (spent_of s)) s.tables.jobs
        (λ r c. record { paid = rw (i.no_uploads, i.no_pending) (omega arith); capped = c })
        i.capped;
  unique = i.unique;
}

-- Start from a table whose rows have at most three attempts each and different IDs. Whatever the
-- replicas, the webhooks and the clients do in whatever order, with crashes between any two steps
-- and with writes of stale jobs, at most three add requests reach the provider for a job, and never
-- more than the attempts that the job's row records.
pub uploads_bounded :
    {s t : System}
    → IsInitial s
    → Reach s t
    → All (λ r. (count r.id t.uploads ≤ 3) × (count r.id t.uploads ≤ r.attempts)) t.tables.jobs
uploads_bounded {s} {t} i r =
    All-map (IsFunded (spent_of t)) _ t.tables.jobs
      (λ row f. (omega (arith, f.paid, f.capped), omega (arith, f.paid)))
      (Reach-IsPaid (IsInitial-IsPaid i) r).funded
