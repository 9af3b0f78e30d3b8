-- ===== src/Db/Media/Health/Finish.antt =====
-- `Finish` of internal/db/file_health.go: every checked file is recorded, and the files that are
-- lost are queued for a rearm, at most `max_rearms` of them in one pass.
use rehydrator.Base.{
  ℕ, is_some, ◌+◌, Bool, true, false, not, ◌&&◌, ◌||◌, Option, none, some, List, [], ◌∷◌, ◌++◌, ltb,
  leb, ◌==◌, if◌then◌else◌, any, Text, codes, text_eq,
}
use rehydrator.Db.Rows.{update, rows_affected}
use rehydrator.Db.Media.{
  Item, SavedSource, available, broken, waiting_for_visibility, is_in, one_of, set_items,
  equals_text,
}
use rehydrator.Db.Media.Marks.{is_torrent_row}
use rehydrator.Db.Media.Sources.{has_torrent_source, is_torrent_kind, is_nzb_kind}
use rehydrator.Db.Media.Health.{
  Target, ProbedFile, FileHealth, SharedHealth, Tables, Pass, Sweep, source_key_of, count_failures,
  provider_recovers, is_target, record_check, confirm_readable,
}

abbrev pub one_day : ℕ
one_day = 86400

-- at > now() - interval '24 hours'
abbrev pub within_a_day : ℕ → Option ℕ → Bool
within_a_day now none = false
within_a_day now (some at) = ltb now (at + one_day)

-- EXISTS(… s.protocol=m.source_protocol AND (s.protocol='usenet' OR s.infohash=m.infohash) AND …)
unfoldable pub has_source : List SavedSource → Item → Bool
has_source sources m =
    any
      (λ s.
        text_eq s.media_id m.id
        && text_eq (s.source.protocol) m.source_protocol
        && (text_eq (s.source.protocol) (codes "usenet")
            || equals_text m.info_hash (s.source.info_hash))
        && (is_torrent_kind (s.source.kind) || is_nzb_kind (s.source.kind)))
      sources

-- the file was queued automatically on the last day
unfoldable pub is_recent : ℕ → List FileHealth → Item → Bool
is_recent now files m =
    any
      (λ h.
        text_eq h.media_id m.id
        && text_eq h.path m.symlink_path
        && text_eq h.source_key (source_key_of m)
        && within_a_day now h.last_auto_rearm_at)
      files

-- the WHERE of the statement that queues a file
unfoldable pub can_queue : ℕ → Sweep → List SavedSource → Target → Bool → Tables → Item → Bool
unfolding is_target is_recent has_source
can_queue now s sources t recovery tables m =
    is_target s t m
    && (is_in available m.state || (recovery && is_in broken m.state && is_torrent_row m))
    && not m.rearm_requested
    && not (is_recent now tables.files m)
    && has_source sources m

unfoldable pub queue_broken : Item → Item
queue_broken m = record m {
  state = broken;
  rearm_requested = true;
  retry_count = 0;
  next_retry_at = none;
  last_error = some (codes "file health: repeated unreadable checks; automatic rearm queued");
}

abbrev pub is_shared : Text → SharedHealth → Bool
is_shared hash h = text_eq h.info_hash hash

unfoldable pub await_release : ℕ → Item → Item
await_release now m = record m {
  state = waiting_for_visibility;
  rearm_requested = true;
  next_retry_at = some (now + 30);
  last_error = some (codes "provider health: waiting for shared release recovery");
}

-- the other files of the release wait for the one that was queued
unfoldable pub share_recovery : ℕ → Sweep → List SavedSource → Text → Tables → Tables
unfolding update has_torrent_source await_release
share_recovery now s sources hash t = record t {
  shared =
      update (is_shared hash)
        (λ h. record h { last_auto_rearm_at = some now; consecutive_failures = 0 }) t.shared;
  items =
      set_items now
        (λ m.
          text_eq m.tenant s.tenant
          && is_torrent_row m
          && equals_text m.info_hash hash
          && one_of (available ∷ broken ∷ []) m.state
          && not m.rearm_requested
          && has_torrent_source sources m)
        (await_release now) t.items;
}

unfoldable pub note_rearm : ℕ → Text → Tables → Tables
unfolding update
note_rearm now id t = record t {
  files =
      update (λ h. text_eq h.media_id id)
        (λ h. record h { last_auto_rearm_at = some now; consecutive_failures = 0 }) t.files;
}

-- the guards before the queries: the `continue` of a file that is not queued
unfoldable pub passes : Sweep → ProbedFile → Bool → ℕ → Pass → Bool
passes s r recovery failures p =
    r.deferred
    || (s.outage && not recovery)
    || (is_some r.provider && not recovery)
    || ltb failures s.threshold
    || leb s.max_rearms p.queued
    || (recovery && any (text_eq (r.target.info_hash)) p.provider_queued)

-- the release was queued automatically on the last day
unfoldable pub is_cooling : ℕ → Text → List SharedHealth → Bool
is_cooling now hash shared =
    any (λ h. is_shared hash h && within_a_day now h.last_auto_rearm_at) shared

-- a file whose row was queued
unfoldable pub queued_pass :
    ℕ → Sweep → List SavedSource → ProbedFile → Bool → ℕ → Tables → Pass → Pass
unfolding share_recovery note_rearm
queued_pass now s sources r recovery failures t p = record p {
  tables =
      note_rearm now (r.target.id)
        (if recovery then share_recovery now s sources (r.target.info_hash) t else t);
  queued = p.queued + 1;
  provider_queued = if recovery then r.target.info_hash ∷ p.provider_queued else p.provider_queued;
  events = p.events ++ ((r.target.id, failures) ∷ []);
}

-- the statement that queues, and what follows if it affects a row
unfoldable pub try_queue : ℕ → Sweep → List SavedSource → ProbedFile → Bool → ℕ → Pass → Pass
unfolding rows_affected can_queue queue_broken queued_pass
try_queue now s sources r recovery failures p =
    let test : Item → Bool = can_queue now s sources r.target recovery p.tables in
    if rows_affected test (p.tables.items) == 0
    then p
    else queued_pass now s sources r recovery failures
        (record (p.tables) { items = set_items now test queue_broken (p.tables.items) }) p

-- the rest of the loop for one file, whose check is recorded in the tables of `p`
unfoldable pub settle_file : ℕ → Sweep → List SavedSource → ProbedFile → Bool → ℕ → Pass → Pass
unfolding passes is_cooling try_queue
settle_file now s sources r recovery failures p =
    if passes s r recovery failures p
      || (recovery && is_cooling now (r.target.info_hash) (p.tables.shared))
    then p
    else try_queue now s sources r recovery failures p

-- one turn of the loop
unfoldable pub finish_file : ℕ → Sweep → List SavedSource → ProbedFile → Pass → Pass
unfolding record_check confirm_readable settle_file
finish_file now s sources r p =
    let failures : ℕ = count_failures s r r.provider in
    settle_file now s sources r (provider_recovers s r r.provider) failures (record p {
      tables = confirm_readable now s sources r (record_check now s r failures p.tables);
    })

unfoldable pub finish_files : ℕ → Sweep → List SavedSource → List ProbedFile → Pass → Pass
unfolding finish_file
finish_files now s sources [] p = p
finish_files now s sources (r ∷ rs) p =
    finish_files now s sources rs (finish_file now s sources r p)

-- Finish: all files of the sample
unfoldable pub finish : ℕ → Sweep → List SavedSource → List ProbedFile → Tables → Pass
unfolding finish_files
finish now s sources rs t =
    finish_files now s sources rs
      (record { tables = t; queued = 0; provider_queued = []; events = [] })
