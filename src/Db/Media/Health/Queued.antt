-- ===== src/Db/Media/Health/Queued.antt =====
-- How many rows a pass of the file health checks queues for a rearm.
use rehydrator.Base.{
  ℕ, ◌+◌, ◌≤◌, ◌<◌, ◌≡◌, refl, sym, subst, inl, inr, Bool, true, false, not, ◌&&◌, List, [], ◌∷◌,
  arith, ◌==◌, Bool-cases, length, Text,
}
use rehydrator.Db.Rows.{rows_affected}
use rehydrator.Db.Media.{Item, SavedSource, is_in, set_items, named}
use rehydrator.Db.Media.Health.{
  Target, ProbedFile, Tables, Pass, Sweep, count_failures, provider_recovers, is_target,
  record_check, found_at_provider, confirm_readable, await_availability,
}
use rehydrator.Db.Media.Health.Finish.{
  can_queue, queue_broken, await_release, share_recovery, note_rearm, passes, is_cooling,
  queued_pass, try_queue, settle_file, finish_file, finish_files, finish,
}
use rehydrator.Db.Media.Health.Cap.{room_left, record_check-items, finish_counted}
use rehydrator.Db.Media.Health.Counted.{
  queued_rows, Keyed, Keyed-set_items, queued_rows-moved, queued_rows-affected, one_affected,
}

-- the invariant of the loop: the rows queued so far, beyond those that were before
Bounds : ℕ → Sweep → Pass → Type 0
Bounds n s p =
    (p.queued ≤ s.max_rearms) × (queued_rows p.tables.items ≤ n + p.queued) × Keyed p.tables.items

can_queue-named :
    (now : ℕ) (s : Sweep) (sources : List SavedSource) (t : Target) (recovery : Bool)
    (tables : Tables) (m : Item)
    → can_queue now s sources t recovery tables m ≡ true
    → named t.id m ≡ true
unfolding can_queue is_target
can_queue-named now s sources t recovery tables m h = ground arith

shared_moved :
    (now : ℕ) (s : Sweep) (sources : List SavedSource) (hash : Text) (t : Tables)
    → (queued_rows (share_recovery now s sources hash t).items ≤ queued_rows t.items)
      × (Keyed t.items → Keyed (share_recovery now s sources hash t).items)
unfolding share_recovery await_release is_in
shared_moved now s sources hash t = (
  queued_rows-moved now _ (await_release now) t.items (λ m. refl),
  Keyed-set_items now _ (await_release now) t.items (λ m. refl),
)

queued_items :
    (now : ℕ) (s : Sweep) (sources : List SavedSource) (r : ProbedFile) (recovery : Bool) (n : ℕ)
    (t : Tables) (p : Pass)
    → (queued_rows (queued_pass now s sources r recovery n t p).tables.items ≤ queued_rows t.items)
      × (Keyed t.items → Keyed (queued_pass now s sources r recovery n t p).tables.items)
unfolding queued_pass note_rearm
queued_items now s sources r true n t p = shared_moved now s sources (r.target.info_hash) t
queued_items now s sources r false n t p = (omega arith, λ k. k)

try_queue-Bounds :
    (now : ℕ) (s : Sweep) (sources : List SavedSource) (r : ProbedFile) (recovery : Bool)
    (n base : ℕ) (p : Pass)
    → p.queued < s.max_rearms
    → Bounds base s p
    → Bounds base s (try_queue now s sources r recovery n p)
unfolding Bounds try_queue queue_broken
try_queue-Bounds now s sources r recovery n base p room h =
    let test = can_queue now s sources r.target recovery p.tables in
    let t : Tables = record (p.tables) { items = set_items now test queue_broken p.tables.items } in
    let done = queued_items now s sources r recovery n t p in
    let one =
      one_affected test r.target.id p.tables.items
        (can_queue-named now s sources r.target recovery p.tables) (h.2) in
    let few = queued_rows-affected now test queue_broken p.tables.items in
    elim (Bool-cases (rows_affected test p.tables.items == 0)) [
      | inl e ↦ rw e h
      | inr e ↦ rw e (
        unfold queued_pass in omega arith,
        unfold queued_pass in omega (arith, done.0, h.1),
        done.1 (Keyed-set_items now test queue_broken p.tables.items (λ m. refl) h.2),
      )
    ]

settle_file-Bounds :
    (now : ℕ) (s : Sweep) (sources : List SavedSource) (r : ProbedFile) (recovery : Bool)
    (n base : ℕ) (p : Pass)
    → Bounds base s p
    → Bounds base s (settle_file now s sources r recovery n p)
unfolding settle_file
settle_file-Bounds now s sources r recovery n base p h =
    elim (Bool-cases (passes s r recovery n p)) [
      | inl e ↦ rw e h
      | inr e ↦
          rw e
            (elim (Bool-cases (recovery && is_cooling now (r.target.info_hash) (p.tables.shared))) [
              | inl c ↦ rw c h
              | inr c ↦ rw c (
                  try_queue-Bounds now s sources r recovery n base p (room_left s r recovery n p e)
                    h)
            ])
    ]

confirm-Bounds :
    (now : ℕ) (s : Sweep) (sources : List SavedSource) (r : ProbedFile) (t : Tables)
    → (queued_rows (confirm_readable now s sources r t).items ≤ queued_rows t.items)
      × (Keyed t.items → Keyed (confirm_readable now s sources r t).items)
unfolding confirm_readable await_availability is_in
confirm-Bounds now s sources r t =
    elim (Bool-cases (found_at_provider r.provider && r.readable && not r.deferred)) [
      | inl e ↦ rw e (
        queued_rows-moved now _ (await_availability now) t.items (λ m. refl),
        Keyed-set_items now _ (await_availability now) t.items (λ m. refl),
      )
      | inr e ↦ rw e (omega arith, λ k. k)
    ]

finish_files-Bounds :
    (now : ℕ) (s : Sweep) (sources : List SavedSource) (rs : List ProbedFile) (base : ℕ) (p : Pass)
    → Bounds base s p
    → Bounds base s (finish_files now s sources rs p)
unfolding finish_files finish_file Bounds
finish_files-Bounds now s sources [] base p h = h
finish_files-Bounds now s sources (r ∷ rs) base p h =
    let n : ℕ = count_failures s r r.provider in
    let checked : Tables = record_check now s r n p.tables in
    let t : Tables = confirm_readable now s sources r checked in
    let same : checked.items ≡ p.tables.items = record_check-items now s r n p.tables in
    let confirmed = confirm-Bounds now s sources r checked in
    let kept : queued_rows checked.items ≤ base + p.queued =
      subst (λ rows. queued_rows rows ≤ base + p.queued) (sym same) h.1 in
    finish_files-Bounds now s sources rs base (finish_file now s sources r p) (
      settle_file-Bounds now s sources r (provider_recovers s r r.provider) n base
        (record p { tables = t })
        (h.0, omega (arith, confirmed.0, kept), confirmed.1 (subst Keyed (sym same) h.2)))

-- A pass of the file health checks on a table whose IDs are different queues at most the configured
-- number of rows for a rearm, that is, turns at most so many into BROKEN rows that are asked to be
-- rearmed; it counts them, and records one event for each that it counts.
pub finish_capped :
    (now : ℕ) (s : Sweep) (sources : List SavedSource) (rs : List ProbedFile) (t : Tables)
    → Keyed t.items
    → (queued_rows (finish now s sources rs t).tables.items
        ≤ queued_rows t.items + (finish now s sources rs t).queued)
      × ((finish now s sources rs t).queued ≤ s.max_rearms)
      × (length (finish now s sources rs t).events ≡ (finish now s sources rs t).queued)
unfolding finish Bounds
finish_capped now s sources rs t keyed =
    let counted = finish_counted now s sources rs t in
    let bounds =
      finish_files-Bounds now s sources rs (queued_rows t.items)
        (record { tables = t; queued = 0; provider_queued = []; events = [] })
        (omega arith, omega arith, keyed) in
    (bounds.1, counted.0, counted.1)
