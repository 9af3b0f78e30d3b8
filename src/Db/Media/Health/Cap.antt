-- ===== src/Db/Media/Health/Cap.antt =====
-- How many files one pass of the file health checks queues, and what a pass does in an outage.
use rehydrator.Db.Media.Health.{
  ProbedFile, Tables, Pass, Sweep, count_failures, provider_recovers, is_target, record_check,
  found_at_provider, confirm_readable,
}
use rehydrator.Base.{
  ℕ, ◌+◌, ◌≤◌, ◌<◌, ◌≡◌, refl, ap, ◌∙◌, inl, inr, Bool, true, false, not, ◌&&◌, none, List, [], ◌∷◌,
  arith, ◌==◌, Bool-cases, length, any, length-append, All, text_eq,
}
use rehydrator.Db.Rows.{rows_affected}
use rehydrator.Db.Media.{SavedSource}
use rehydrator.Db.Media.Health.Finish.{
  can_queue, passes, is_cooling, queued_pass, try_queue, settle_file, finish_file, finish_files,
  finish,
}

-- the count of a pass, the number of its events, and the cap
Capped : Sweep → Pass → Type 0
Capped s p = (p.queued ≤ s.max_rearms) × (length p.events ≡ p.queued)

try_queue-Capped :
    (now : ℕ) (s : Sweep) (sources : List SavedSource) (r : ProbedFile) (recovery : Bool) (n : ℕ)
    (p : Pass)
    → p.queued < s.max_rearms
    → Capped s p
    → Capped s (try_queue now s sources r recovery n p)
unfolding Capped try_queue queued_pass
try_queue-Capped now s sources r recovery n p room h =
    elim (Bool-cases
      (rows_affected (can_queue now s sources r.target recovery p.tables) (p.tables.items) == 0)) [
        | inl e ↦ rw e h
        | inr e ↦
            rw e (
              (omega arith),
              length-append p.events ((r.target.id, n) ∷ []) ∙ ap (λ k. k + 1) (h.1),
            )
      ]

-- a file that is not passed over finds room
pub room_left :
    (s : Sweep) (r : ProbedFile) (recovery : Bool) (n : ℕ) (p : Pass)
    → passes s r recovery n p ≡ false
    → p.queued < s.max_rearms
unfolding passes
room_left s r recovery n p e = ground arith

settle_file-Capped :
    (now : ℕ) (s : Sweep) (sources : List SavedSource) (r : ProbedFile) (recovery : Bool) (n : ℕ)
    (p : Pass)
    → Capped s p
    → Capped s (settle_file now s sources r recovery n p)
unfolding settle_file
settle_file-Capped now s sources r recovery n p h = elim (Bool-cases (passes s r recovery n p)) [
  | inl e ↦ rw e h
  | inr e ↦
      rw e (elim (Bool-cases (recovery && is_cooling now (r.target.info_hash) (p.tables.shared))) [
        | inl c ↦ rw c h
        | inr c ↦
            rw c (try_queue-Capped now s sources r recovery n p (room_left s r recovery n p e) h)
      ])
]

with_tables-Capped :
    (s : Sweep) (p : Pass) (t : Tables) → Capped s p → Capped s (record p { tables = t })
unfolding Capped
with_tables-Capped s p t h = h

finish_files-Capped :
    (now : ℕ) (s : Sweep) (sources : List SavedSource) (rs : List ProbedFile) (p : Pass)
    → Capped s p
    → Capped s (finish_files now s sources rs p)
unfolding finish_files finish_file
finish_files-Capped now s sources [] p h = h
finish_files-Capped now s sources (r ∷ rs) p h =
    let n : ℕ = count_failures s r r.provider in
    let t : Tables = confirm_readable now s sources r (record_check now s r n p.tables) in
    finish_files-Capped now s sources rs (finish_file now s sources r p) (
      settle_file-Capped now s sources r (provider_recovers s r r.provider) n
        (record p { tables = t }) (with_tables-Capped s p t h))

-- the count of a pass and its events
pub finish_counted :
    (now : ℕ) (s : Sweep) (sources : List SavedSource) (rs : List ProbedFile) (t : Tables)
    → ((finish now s sources rs t).queued ≤ s.max_rearms)
      × (length (finish now s sources rs t).events ≡ (finish now s sources rs t).queued)
unfolding finish Capped
finish_counted now s sources rs t =
    finish_files-Capped now s sources rs
      (record { tables = t; queued = 0; provider_queued = []; events = [] }) (omega arith, refl)

pub record_check-items :
    (now : ℕ) (s : Sweep) (r : ProbedFile) (n : ℕ) (t : Tables)
    → (record_check now s r n t).items ≡ t.items
unfolding record_check
record_check-items now s r n t = elim (Bool-cases (not (any (is_target s r.target) t.items))) [
  | inl e ↦ rw e refl
  | inr e ↦ rw e (elim (Bool-cases (any (λ h. text_eq h.media_id (r.target.id)) t.files)) [
    | inl k ↦ rw k refl
    | inr k ↦ rw k refl
  ])
]

passes_in_outage :
    (s : Sweep) (r : ProbedFile) (recovery : Bool) (n : ℕ) (p : Pass)
    → s.outage ≡ true
    → recovery ≡ false
    → passes s r recovery n p ≡ true
unfolding passes
passes_in_outage s r recovery n p e f = ground arith

settle_quiet :
    (now : ℕ) (s : Sweep) (sources : List SavedSource) (r : ProbedFile) (recovery : Bool) (n : ℕ)
    (p : Pass)
    → s.outage ≡ true
    → recovery ≡ false
    → settle_file now s sources r recovery n p ≡ p
unfolding settle_file
settle_quiet now s sources r recovery n p out lost =
    rw (passes_in_outage s r recovery n p out lost) refl

confirm_quiet :
    (now : ℕ) (s : Sweep) (sources : List SavedSource) (r : ProbedFile) (t : Tables)
    → r.provider ≡ none
    → confirm_readable now s sources r t ≡ t
unfolding confirm_readable
confirm_quiet now s sources r t absent =
    elim (Bool-cases (found_at_provider r.provider && r.readable && not r.deferred)) [
      | inl e ↦ absurd (ground arith)
      | inr e ↦ rw e refl
    ]

quiet_file :
    (now : ℕ) (s : Sweep) (sources : List SavedSource) (r : ProbedFile) (p : Pass)
    → s.outage ≡ true
    → r.provider ≡ none
    → ((finish_file now s sources r p).tables.items ≡ p.tables.items)
      × ((finish_file now s sources r p).queued ≡ p.queued)
unfolding finish_file
quiet_file now s sources r p out absent =
    let n : ℕ = count_failures s r r.provider in
    let t : Tables = confirm_readable now s sources r (record_check now s r n p.tables) in
    let same : settle_file now s sources r (provider_recovers s r r.provider) n
          (record p { tables = t })
        ≡ record p { tables = t } =
      settle_quiet now s sources r (provider_recovers s r r.provider) n (record p { tables = t })
        out (ap (provider_recovers s r) absent) in
    (
      ap (λ q. q.tables.items) same
          ∙ (ap (λ u. u.items)
                (confirm_quiet now s sources r (record_check now s r n p.tables) absent)
              ∙ record_check-items now s r n p.tables),
      ap (λ q. q.queued) same,
    )

quiet_files :
    (now : ℕ) (s : Sweep) (sources : List SavedSource) (rs : List ProbedFile) (p : Pass)
    → s.outage ≡ true
    → All (λ r. r.provider ≡ none) rs
    → ((finish_files now s sources rs p).tables.items ≡ p.tables.items)
      × ((finish_files now s sources rs p).queued ≡ p.queued)
unfolding finish_files
quiet_files now s sources [] p out absent = (refl, refl)
quiet_files now s sources (r ∷ rs) p out absent =
    let head = quiet_file now s sources r p out absent.0 in
    let rest = quiet_files now s sources rs (finish_file now s sources r p) out absent.1 in
    (rest.0 ∙ head.0, rest.1 ∙ head.1)

-- In a pass that saw an outage, and in which no file has an observation of the provider, no row of
-- the library changes and nothing is queued.
pub outage_changes_nothing :
    (now : ℕ) (s : Sweep) (sources : List SavedSource) (rs : List ProbedFile) (t : Tables)
    → s.outage ≡ true
    → All (λ r. r.provider ≡ none) rs
    → ((finish now s sources rs t).tables.items ≡ t.items)
      × ((finish now s sources rs t).queued ≡ 0)
unfolding finish
outage_changes_nothing now s sources rs t =
    quiet_files now s sources rs
      (record { tables = t; queued = 0; provider_queued = []; events = [] })
