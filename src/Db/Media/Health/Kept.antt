-- ===== src/Db/Media/Health/Kept.antt =====
-- A pass of the file health checks keeps every row consistent.
use rehydrator.Db.Media.Health.Finish.{
  is_shared, can_queue, queue_broken, share_recovery, await_release, note_rearm, passes, is_cooling,
  queued_pass, try_queue, settle_file, finish_file, finish_files, finish,
}
use rehydrator.Db.Media.{
  available, broken, one_of, equals_text, is_in, update, Item, SavedSource, set_items,
}
use rehydrator.Db.Media.Health.{
  has_torrent_source, new_file, record_file, found_at_provider, is_target, is_torrent_row,
  FileHealth, SharedHealth, ProbedFile, Tables, Pass, Sweep, count_failures, provider_recovers,
  record_check, confirm_readable, await_availability,
}
use rehydrator.Base.{
  ℕ, refl, Bool, true, false, not, ◌&&◌, ◌||◌, some, List, [], ◌∷◌, ◌++◌, ◌==◌, if◌then◌else◌, any,
  Text, text_eq,
}
use rehydrator.Db.Media.Lifecycle.Kept.{set_items-kept}
use rehydrator.Db.Rows.{rows_affected}
use rehydrator.Db.Media.Lifecycle.{IsConsistent, AreConsistent}

unfoldable Fine : Tables → Type 0
Fine t = AreConsistent t.items

unfoldable FinePass : Pass → Type 0
FinePass p = Fine p.tables

-- either branch of a choice that the source makes
if_Fine : (b : Bool) (t u : Tables) → Fine t → Fine u → Fine (if b then t else u)
if_Fine true t u h k = h
if_Fine false t u h k = k

if_pass : (b : Bool) (p q : Pass) → FinePass p → FinePass q → FinePass (if b then p else q)
if_pass true p q h k = h
if_pass false p q h k = k

-- a change of the other tables
other_tables :
    (t : Tables) (fs : List FileHealth) (hs : List SharedHealth)
    → Fine t
    → Fine (record { items = t.items; files = fs; shared = hs })
unfolding Fine
other_tables t fs hs h = h

record_check-Fine :
    (now : ℕ) (s : Sweep) (r : ProbedFile) (n : ℕ) (t : Tables)
    → Fine t
    → Fine (record_check now s r n t)
unfolding record_check
record_check-Fine now s r n t h = if_Fine (not (any (is_target s r.target) t.items)) t _ h (
    if_Fine (any (λ f. text_eq f.media_id (r.target.id)) t.files) _ _
      (other_tables t (update (λ f. text_eq f.media_id (r.target.id)) (record_file now r n) t.files)
        t.shared h)
      (other_tables t (t.files ++ (new_file now r n ∷ [])) t.shared h))

change-Fine :
    (now : ℕ) (test : Item → Bool) (change : Item → Item) (t : Tables) (hs : List SharedHealth)
    → ((m : Item) → IsConsistent (change m))
    → Fine t
    → Fine (record { items = set_items now test change t.items; files = t.files; shared = hs })
unfolding Fine
change-Fine now test change t hs f h = set_items-kept now test change t.items (λ m c u. f m) h

await_availability-IsConsistent : (now : ℕ) (m : Item) → IsConsistent (await_availability now m)
unfolding await_availability
await_availability-IsConsistent now m = refl

confirm_readable-Fine :
    (now : ℕ) (s : Sweep) (sources : List SavedSource) (r : ProbedFile) (t : Tables)
    → Fine t
    → Fine (confirm_readable now s sources r t)
unfolding confirm_readable
confirm_readable-Fine now s sources r t h =
    if_Fine (found_at_provider r.provider && r.readable && not r.deferred) _ t
      (change-Fine now
        (λ m.
          is_target s r.target m
          && is_in broken m.state
          && not m.rearm_requested
          && is_torrent_row m
          && has_torrent_source sources m)
        (await_availability now) t t.shared (await_availability-IsConsistent now) h)
      h

await_release-IsConsistent : (now : ℕ) (m : Item) → IsConsistent (await_release now m)
unfolding await_release
await_release-IsConsistent now m = refl

share_recovery-Fine :
    (now : ℕ) (s : Sweep) (sources : List SavedSource) (hash : Text) (t : Tables)
    → Fine t
    → Fine (share_recovery now s sources hash t)
unfolding share_recovery
share_recovery-Fine now s sources hash t h =
    change-Fine now
      (λ m.
        text_eq m.tenant s.tenant
        && is_torrent_row m
        && equals_text m.info_hash hash
        && one_of (available ∷ broken ∷ []) m.state
        && not m.rearm_requested
        && has_torrent_source sources m)
      (await_release now) t
      (update (is_shared hash)
        (λ h. record h { last_auto_rearm_at = some now; consecutive_failures = 0 }) t.shared)
      (await_release-IsConsistent now) h

note_rearm-Fine : (now : ℕ) (id : Text) (t : Tables) → Fine t → Fine (note_rearm now id t)
unfolding Fine note_rearm
note_rearm-Fine now id t h = h

queued_pass-Fine :
    (now : ℕ) (s : Sweep) (sources : List SavedSource) (r : ProbedFile) (recovery : Bool) (n : ℕ)
    (t : Tables) (p : Pass)
    → Fine t
    → FinePass (queued_pass now s sources r recovery n t p)
unfolding FinePass queued_pass
queued_pass-Fine now s sources r recovery n t p h =
    note_rearm-Fine now (r.target.id)
      (if recovery then share_recovery now s sources (r.target.info_hash) t else t)
      (if_Fine recovery (share_recovery now s sources (r.target.info_hash) t) t
        (share_recovery-Fine now s sources (r.target.info_hash) t h) h)

queue_broken-IsConsistent : (m : Item) → IsConsistent (queue_broken m)
unfolding queue_broken
queue_broken-IsConsistent m = tt

pass_tables : (p : Pass) → FinePass p → Fine p.tables
unfolding FinePass
pass_tables p h = h

try_queue-Fine :
    (now : ℕ) (s : Sweep) (sources : List SavedSource) (r : ProbedFile) (recovery : Bool) (n : ℕ)
    (p : Pass)
    → FinePass p
    → FinePass (try_queue now s sources r recovery n p)
unfolding try_queue
try_queue-Fine now s sources r recovery n p h =
    let test : Item → Bool = can_queue now s sources r.target recovery p.tables in
    if_pass (rows_affected test (p.tables.items) == 0) p _ h (
      queued_pass-Fine now s sources r recovery n
        (record (p.tables) { items = set_items now test queue_broken (p.tables.items) }) p
        (change-Fine now test queue_broken p.tables (p.tables.shared) queue_broken-IsConsistent
          (pass_tables p h)))

with_tables : (p : Pass) (t : Tables) → Fine t → FinePass (record p { tables = t })
unfolding FinePass
with_tables p t h = h

finish_file-Fine :
    (now : ℕ) (s : Sweep) (sources : List SavedSource) (r : ProbedFile) (p : Pass)
    → FinePass p
    → FinePass (finish_file now s sources r p)
unfolding finish_file settle_file
finish_file-Fine now s sources r p h =
    let n : ℕ = count_failures s r r.provider in
    let t : Tables = confirm_readable now s sources r (record_check now s r n p.tables) in
    let recovery : Bool = provider_recovers s r r.provider in
    let q : Pass = record p { tables = t } in
    let k : FinePass q = with_tables p t (
      confirm_readable-Fine now s sources r (record_check now s r n p.tables)
        (record_check-Fine now s r n p.tables (pass_tables p h))) in
    if_pass
      (passes s r recovery n q
        || (recovery && is_cooling now (r.target.info_hash) (q.tables.shared)))
      q (try_queue now s sources r recovery n q) k (try_queue-Fine now s sources r recovery n q k)

finish_files-Fine :
    (now : ℕ) (s : Sweep) (sources : List SavedSource) (rs : List ProbedFile) (p : Pass)
    → FinePass p
    → FinePass (finish_files now s sources rs p)
unfolding finish_files
finish_files-Fine now s sources [] p h = h
finish_files-Fine now s sources (r ∷ rs) p h =
    finish_files-Fine now s sources rs (finish_file now s sources r p)
      (finish_file-Fine now s sources r p h)

pub finish-kept :
    (now : ℕ) (s : Sweep) (sources : List SavedSource) (rs : List ProbedFile) (t : Tables)
    → AreConsistent t.items
    → AreConsistent (finish now s sources rs t).tables.items
unfolding finish Fine FinePass
finish-kept now s sources rs t h =
    finish_files-Fine now s sources rs
      (record { tables = t; queued = 0; provider_queued = []; events = [] }) h
