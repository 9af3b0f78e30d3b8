-- ===== src/Db/Jobs/Budget.antt =====
-- The submission budget of a row, and what the statements do to it. Every claim for a submission
-- takes one attempt of the row; only a deferral gives one back.
use rehydrator.Base.{
  ℕ, suc, ◌+◌, ◌≤◌, ◌<◌, ◌≡◌, refl, inl, inr, Bool, true, false, Option, none, some, List, [], ◌∷◌,
  ◌++◌, arith, leb, if◌then◌else◌, Bool-cases, All, All-append, Text, text_eq, text_eq_swap,
}
use rehydrator.Db.Jobs.Claim.{
  take_first, is_due, before, claim_job, fault, insert_gate, idle, claimed, interrupt,
  is_interrupted, exhaust, is_exhausted, postpone, take_queued, take_row, Claim, start_submission,
  sweep, max_attempts,
}
use rehydrator.Db.Jobs.{Protocol, has_id, queued, state_eq, Job, Tables, Row}
use rehydrator.Db.Rows.{update, All-update, first_by, first_by_lem}

-- A row whose attempts pay for what was spent on its ID, and are three at most.
pub record IsFunded (spent : Text → ℕ) (r : Row) : Type 0 where
  pub paid : spent r.id ≤ r.attempts
  pub capped : r.attempts ≤ max_attempts

abbrev pub Funded : (Text → ℕ) → List Row → Type 0
Funded spent = All (IsFunded spent)

-- IDs are the table's primary key.
abbrev pub Unique : List Row → Type 0
Unique [] = Unit
Unique (r ∷ rs) = All (λ s. text_eq s.id r.id ≡ false) rs × Unique rs

-- A change that leaves the ID and the attempts of a row alone.
abbrev pub IsNeutral : (Row → Row) → Type 0
IsNeutral change = (r : Row) → ((change r).id ≡ r.id) × ((change r).attempts ≡ r.attempts)

pub Funded-update :
    (spent : Text → ℕ) (test : Row → Bool) (change : Row → Row) (rows : List Row)
    → IsNeutral change
    → Funded spent rows
    → Funded spent (update test change rows)
Funded-update spent test change rows n h =
    All-update (IsFunded spent) (IsFunded spent) test change
      (λ r f _. record { paid = rw ((n r).0, (n r).1) f.paid; capped = rw (n r).1 f.capped })
      (λ r f _. f) rows h

id_if :
    (b : Bool) (change : Row → Row) (r : Row)
    → ((r : Row) → (change r).id ≡ r.id)
    → (if b then change r else r).id ≡ r.id
id_if true change r n = n r
id_if false change r n = refl

pub Unique-update :
    (test : Row → Bool) (change : Row → Row) (rows : List Row)
    → ((r : Row) → (change r).id ≡ r.id)
    → Unique rows
    → Unique (update test change rows)
unfolding update
Unique-update test change [] n u = tt
Unique-update test change (r ∷ rs) n u = (
  rw (id_if (test r) change r n) (
      All-update (λ s. text_eq s.id r.id ≡ false) (λ s. text_eq s.id r.id ≡ false) test change
        (λ s h _. rw (n s) h) (λ s h _. h) rs u.0),
  Unique-update test change rs n u.1,
)

pub Unique-snoc :
    (rows : List Row) (r : Row)
    → All (λ s. text_eq s.id r.id ≡ false) rows
    → Unique rows
    → Unique (rows ++ r ∷ [])
Unique-snoc [] r new u = (tt, tt)
Unique-snoc (s ∷ rs) r new u = (
  All-append (λ t. text_eq t.id s.id ≡ false) rs (r ∷ []) u.0 (text_eq_swap s.id r.id new.0, tt),
  Unique-snoc rs r new.1 u.1,
)

-- Rows with the ID of `s` have its attempts.
abbrev Agrees : Row → Row → Type 0
Agrees s r = text_eq r.id s.id ≡ true → r.attempts ≡ s.attempts

Agrees-apart :
    (s : Row) (rs : List Row) → All (λ r. text_eq r.id s.id ≡ false) rs → All (Agrees s) rs
Agrees-apart s [] h = tt
Agrees-apart s (r ∷ rs) h = ((λ e. absurd (cc (e, h.0))), Agrees-apart s rs h.1)

Agrees-cons :
    (r : Row) (rs ss : List Row)
    → All (λ s. text_eq s.id r.id ≡ false) ss
    → All (λ s. All (Agrees s) rs) ss
    → All (λ s. All (Agrees s) (r ∷ rs)) ss
Agrees-cons r rs [] a h = tt
Agrees-cons r rs (s ∷ ss) a h =
    (((λ e. absurd (cc (e, text_eq_swap s.id r.id a.0))), h.0), Agrees-cons r rs ss a.1 h.1)

Agrees-All : (rows : List Row) → Unique rows → All (λ s. All (Agrees s) rows) rows
Agrees-All [] u = tt
Agrees-All (r ∷ rs) u =
    (((λ _. refl), Agrees-apart r rs u.0), Agrees-cons r rs rs u.0 (Agrees-All rs u.1))

-- The row that a SELECT takes has the attempts of every row with its ID.
pub selected_Agrees :
    (by : Row → Row → Bool) (test : Row → Bool) (rows : List Row) {s : Row}
    → Unique rows
    → first_by by test rows ≡ some s
    → All (Agrees s) rows
selected_Agrees by test rows {s} u e =
    (first_by_lem (λ s. All (Agrees s) rows) by test rows (Agrees-All rows u) e).0

-- One more attempt spent on an ID.
abbrev pub spend : Text → (Text → ℕ) → Text → ℕ
spend id spent k = if text_eq k id then suc (spent k) else spent k

-- `IsFunded` for a row of the ID, and for another row
Funded-start :
    (spent : Text → ℕ) (now : ℕ) (s : Row) (rows : List Row)
    → s.attempts < max_attempts
    → All (Agrees s) rows
    → Funded spent rows
    → Funded (spend s.id spent) (update (has_id s.id) (start_submission now) rows)
unfolding update start_submission
Funded-start spent now s [] l a h = tt
Funded-start spent now s (r ∷ rs) l a h =
    let rest = Funded-start spent now s rs l a.1 h.1 in
    elim (Bool-cases (text_eq r.id s.id)) [
      | inl e ↦
          let same : r.attempts ≡ s.attempts = a.0 e in
          let paid : suc (spent r.id) ≤ r.attempts + 1 = omega (arith, h.0.paid) in
          rw e (record { paid = rw e paid; capped = omega arith }, rest)
      | inr e ↦ rw e (record { paid = rw e (h.0.paid); capped = h.0.capped }, rest)
    ]

Funded-sweep :
    (spent : Text → ℕ) (now : ℕ) (rows : List Row)
    → Funded spent rows
    → Funded spent (sweep now rows)
unfolding sweep
Funded-sweep spent now rows h =
    Funded-update spent is_exhausted exhaust _ (λ r. (refl, refl))
      (Funded-update spent (is_interrupted now) interrupt rows (λ r. (refl, refl)) h)

Unique-sweep : (now : ℕ) (rows : List Row) → Unique rows → Unique (sweep now rows)
unfolding sweep
Unique-sweep now rows u =
    Unique-update is_exhausted exhaust _ (λ r. refl)
      (Unique-update (is_interrupted now) interrupt rows (λ r. refl) u)

-- What a claim spends: an attempt if the job was queued.
abbrev pub charged : Job → (Text → ℕ) → Text → ℕ
charged j spent = if state_eq j.state queued then spend j.id spent else spent

abbrev pub ClaimKeeps : (Text → ℕ) → Claim → Type 0
ClaimKeeps spent (claimed j t) = Funded (charged j spent) t.jobs × Unique t.jobs
ClaimKeeps spent (idle t) = Funded spent t.jobs × Unique t.jobs
ClaimKeeps spent (fault e) = Unit

module _ (spent : Text → ℕ) (now interval : ℕ) (t : Tables) (f : Funded spent t.jobs)
    (u : Unique t.jobs) where
  postponed :
      (id : Text) (at : ℕ)
      → Funded spent (update (has_id id) (postpone at) t.jobs)
        × Unique (update (has_id id) (postpone at) t.jobs)
  unfolding postpone
  postponed id at = (
    Funded-update spent (has_id id) (postpone at) t.jobs (λ r. (refl, refl)) f,
    Unique-update (has_id id) (postpone at) t.jobs (λ r. refl) u,
  )

  take_queued-keeps :
      (s : Row)
      → All (Agrees s) t.jobs
      → state_eq s.state queued ≡ true
      → ClaimKeeps spent (take_queued now interval t s)
  unfolding take_queued
  take_queued-keeps s a q = elim (Bool-cases (leb max_attempts s.attempts)) [
    | inl e ↦ rw e tt
    | inr e ↦ elim (Bool-cases (leb (insert_gate now t.gate) now)) [
      | inl o ↦
          rw (e, o, q)
            (
              Funded-start spent now s t.jobs (ground (arith, e)) a f,
              Unique-update (has_id s.id) (start_submission now) t.jobs
                  (λ r. unfold start_submission in refl) u,
            )
      | inr o ↦ rw (e, o) (postponed s.id (now + 60))
    ]
  ]

  take_row-keeps : (s : Row) → All (Agrees s) t.jobs → ClaimKeeps spent (take_row now interval t s)
  unfolding take_row
  take_row-keeps s a = elim (Bool-cases (state_eq s.state queued)) [
    | inl e ↦ rw e (take_queued-keeps s a e)
    | inr e ↦ rw (e, e) (postponed s.id (now + 300))
  ]

-- A claim spends one attempt of the job that it queues for submission, and no other; IDs stay apart.
pub claim_job-keeps :
    (spent : Text → ℕ) (now interval : ℕ) (protocol : Option Protocol) (locked : Row → Bool)
    (t : Tables)
    → Funded spent t.jobs
    → Unique t.jobs
    → ClaimKeeps spent (claim_job now interval protocol locked t)
unfolding claim_job
claim_job-keeps spent now interval protocol locked t f u =
    choose (first_by before (is_due now t.gate protocol locked) rows) refl
  where
    rows : List Row
    rows = sweep now t.jobs

    swept : Tables
    swept = record t { jobs = rows }

    choose :
        (o : Option Row)
        → first_by before (is_due now t.gate protocol locked) rows ≡ o
        → ClaimKeeps spent (take_first now interval swept o)
    choose none e = (Funded-sweep spent now t.jobs f, Unique-sweep now t.jobs u)
    choose (some s) e =
        take_row-keeps spent now interval swept (Funded-sweep spent now t.jobs f)
          (Unique-sweep now t.jobs u) s
          (selected_Agrees before _ rows (Unique-sweep now t.jobs u) e)
