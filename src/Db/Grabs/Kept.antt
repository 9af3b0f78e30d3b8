-- ===== src/Db/Grabs/Kept.antt =====
-- A captured source is final.
use rehydrator.Base.{
  ℕ, ◌+◌, ◌≡◌, refl, inl, inr, Bool, true, Option, none, some, List, [], ◌∷◌, ◌++◌, arith,
  if◌then◌else◌, Bool-cases, all, any, Text, text_eq,
}
use rehydrator.Base.Strings.{trim_space}
use rehydrator.Model.Types.{TorrentMetadata}
use rehydrator.Model.Source.{Checked, valid, recovery, rejected, Url, Token, validate_source}
use rehydrator.Db.Rows.{update}
use rehydrator.Db.Grabs.{
  GrabKey, GrabSource, GrabRow, of_grab, normal_key, is_open, is_valid_row, checked_rows, no_source,
  new_grab, merge_source, queued_source, affected, queue_grab_source, capture, complete_checked,
  complete_grab_source, retry_grab_source, note_import, record_grab_import,
}

-- a statement with its arguments
pub data GrabWrite : Type 0 where
  queue_source : GrabSource → GrabWrite
  complete_source : GrabSource → GrabWrite
  retry_source : GrabKey → Text → GrabWrite
  record_import : GrabKey → Text → GrabWrite

-- a failed statement changes nothing
abbrev pub rows_or : List GrabRow → Option (List GrabRow) → List GrabRow
rows_or rows none = rows
rows_or rows (some after) = after

abbrev pub queued_or : List GrabRow → Option (List GrabRow × Bool) → List GrabRow
queued_or rows none = rows
queued_or rows (some (after, any_row)) = after

-- the source that is captured for a grab
unfoldable pub captured : GrabKey → List GrabRow → Option TorrentMetadata
captured k [] = none
captured k (r ∷ rs) =
    let rest = captured k rs in
    if of_grab k r then if r.ready then some r.torrent else none else rest

module _ (sha1_hex : Text → Text) (parse_url : Text → Option Url)
    (read_xml : Text → List Token × Bool) where
  unfoldable pub write : ℕ → GrabWrite → List GrabRow → List GrabRow
  unfolding queue_grab_source complete_grab_source retry_grab_source record_grab_import
  write now (queue_source g) rows = queued_or rows (queue_grab_source now g rows)
  write now (complete_source g) rows =
      rows_or rows (complete_grab_source sha1_hex parse_url read_xml g rows)
  write now (retry_source k reason) rows = retry_grab_source now k reason rows
  write now (record_import k path) rows = rows_or rows (record_grab_import now k path rows)

  -- statements one after the other, each with its time
  unfoldable pub write_all : List (ℕ × GrabWrite) → List GrabRow → List GrabRow
  unfolding write
  write_all [] rows = rows
  write_all ((now, w) ∷ ws) rows = write_all ws (write now w rows)

-- a change that keeps the captured rows
abbrev Keeps : (GrabRow → Bool) → (GrabRow → GrabRow) → Type 0
Keeps test change =
    (r : GrabRow)
    → test r ≡ true
    → ((change r).key ≡ r.key)
      × (r.ready ≡ true → ((change r).ready ≡ true) × ((change r).torrent ≡ r.torrent))

source_kept :
    (t : TorrentMetadata) (r s : GrabRow)
    → (r.ready ≡ true → (s.ready ≡ true) × (s.torrent ≡ r.torrent))
    → (if r.ready then some r.torrent else none) ≡ some t
    → (if s.ready then some s.torrent else none) ≡ some t
source_kept t r s same = elim (Bool-cases r.ready) [
  | inl d ↦ rw ((same d).0, (same d).1, d) (λ h. h)
  | inr d ↦ rw d (λ h. absurd (cc h))
]

captured-update :
    (k : GrabKey) (t : TorrentMetadata) (test : GrabRow → Bool) (change : GrabRow → GrabRow)
    (rows : List GrabRow)
    → Keeps test change
    → captured k rows ≡ some t
    → captured k (update test change rows) ≡ some t
unfolding captured update
captured-update k t test change [] keeps = λ h. h
captured-update k t test change (r ∷ rs) keeps = elim (Bool-cases (test r)) [
  | inl e ↦
      let same = (keeps r e).0 in
      rw (e, same)
        (elim (Bool-cases (of_grab k r)) [
          | inl o ↦ rw o (source_kept t r (change r) (keeps r e).1)
          | inr o ↦ rw o (captured-update k t test change rs keeps)
        ])
  | inr e ↦ rw e (elim (Bool-cases (of_grab k r)) [
    | inl o ↦ rw o (λ h. h)
    | inr o ↦ rw o (captured-update k t test change rs keeps)
  ])
]

captured-append :
    (k : GrabKey) (t : TorrentMetadata) (rows more : List GrabRow)
    → captured k rows ≡ some t
    → captured k (rows ++ more) ≡ some t
unfolding captured
captured-append k t [] more = λ h. absurd (cc h)
captured-append k t (r ∷ rs) more = elim (Bool-cases (of_grab k r)) [
  | inl o ↦ rw o (λ h. h)
  | inr o ↦ rw o (captured-append k t rs more)
]

checked_keeps :
    (k : GrabKey) (t : TorrentMetadata) (rows after : List GrabRow)
    → captured k rows ≡ some t
    → captured k after ≡ some t
    → captured k (rows_or rows (checked_rows after)) ≡ some t
unfolding checked_rows
checked_keeps k t rows after h j = elim (Bool-cases (all is_valid_row after)) [
  | inl e ↦ rw e j
  | inr e ↦ rw e h
]

pub affected_or :
    (any_row : Bool) (rows : List GrabRow) (o : Option (List GrabRow))
    → queued_or rows (affected any_row o) ≡ rows_or rows o
affected_or any_row rows none = refl
affected_or any_row rows (some after) = refl

open-Keeps :
    (k : GrabKey) (change : GrabRow → GrabRow)
    → ((r : GrabRow) → (change r).key ≡ r.key)
    → Keeps (is_open k) change
open-Keeps k change same r e = (same r, λ d. absurd (ground arith))

queue_keeps :
    (now : ℕ) (g : GrabSource) (k : GrabKey) (t : TorrentMetadata) (rows : List GrabRow)
    → captured k rows ≡ some t
    → captured k (queued_or rows (queue_grab_source now g rows)) ≡ some t
unfolding queue_grab_source
queue_keeps now g k t rows h =
    let l = normal_key g.key in
    let change : GrabRow → GrabRow = λ r. record r { torrent = merge_source g.torrent r.torrent } in
    let changed = update (is_open l) change rows in
    let added = rows ++ (new_grab now l (queued_source g.torrent) ∷ []) in
    elim (Bool-cases (any (of_grab l) rows)) [
      | inl e ↦
          rw (e, affected_or (any (is_open l) rows) rows (checked_rows changed))
            (checked_keeps k t rows changed h
              (captured-update k t (is_open l) change rows (open-Keeps l change (λ r. refl)) h))
      | inr e ↦
          rw (e, affected_or true rows (checked_rows added))
            (checked_keeps k t rows added h
              (captured-append k t rows (new_grab now l (queued_source g.torrent) ∷ []) h))
    ]

complete_keeps :
    (l : GrabKey) (c : Checked TorrentMetadata) (k : GrabKey) (t : TorrentMetadata)
    (rows : List GrabRow)
    → captured k rows ≡ some t
    → captured k (rows_or rows (complete_checked l rows c)) ≡ some t
complete_keeps l (valid v) k t rows h =
    checked_keeps k t rows (update (is_open l) (capture v) rows) h
      (captured-update k t (is_open l) (capture v) rows (open-Keeps l (capture v) (λ r. refl)) h)
complete_keeps l recovery k t rows h = h
complete_keeps l rejected k t rows h = h

import_keeps :
    (now : ℕ) (key : GrabKey) (path : Text) (k : GrabKey) (t : TorrentMetadata)
    (rows : List GrabRow)
    → captured k rows ≡ some t
    → captured k (rows_or rows (record_grab_import now key path rows)) ≡ some t
unfolding record_grab_import
import_keeps now key path k t rows h =
    let l = normal_key key in
    let changed = update (of_grab l) (note_import now path) rows in
    let more = note_import now path (new_grab now l no_source) ∷ [] in
    elim (Bool-cases (text_eq (trim_space path) [])) [
      | inl b ↦ rw b h
      | inr b ↦ rw b (elim (Bool-cases (any (of_grab l) rows)) [
        | inl e ↦ rw e (
            checked_keeps k t rows changed h (
              captured-update k t (of_grab l) (note_import now path) rows
                (λ r e. (refl, λ d. (d, refl))) h))
        | inr e ↦ rw e (checked_keeps k t rows (rows ++ more) h (captured-append k t rows more h))
      ])
    ]

module _ (sha1_hex : Text → Text) (parse_url : Text → Option Url)
    (read_xml : Text → List Token × Bool) where
  write_keeps :
      (now : ℕ) (w : GrabWrite) (k : GrabKey) (t : TorrentMetadata) (rows : List GrabRow)
      → captured k rows ≡ some t
      → captured k (write sha1_hex parse_url read_xml now w rows) ≡ some t
  unfolding write complete_grab_source retry_grab_source
  write_keeps now (queue_source g) k t rows h = queue_keeps now g k t rows h
  write_keeps now (complete_source g) k t rows h =
      complete_keeps (normal_key g.key) (validate_source sha1_hex parse_url read_xml g.torrent) k t
        rows h
  write_keeps now (retry_source key reason) k t rows h =
      let l = normal_key key in
      let change : GrabRow → GrabRow =
        λ r. record r { next_retry_at = now + 60; last_error = some reason } in
      captured-update k t (is_open l) change rows (open-Keeps l change (λ r. refl)) h
  write_keeps now (record_import key path) k t rows h = import_keeps now key path k t rows h

  -- Once the source of a grab is captured, it stays what it is after any further sequence of the
  -- statements on the table, with grabs of the same key among them and whatever statements the
  -- checks of the table refuse.
  pub captured_final :
      (ws : List (ℕ × GrabWrite)) (k : GrabKey) (t : TorrentMetadata) (rows : List GrabRow)
      → captured k rows ≡ some t
      → captured k (write_all sha1_hex parse_url read_xml ws rows) ≡ some t
  unfolding write_all
  captured_final [] k t rows h = h
  captured_final ((now, w) ∷ ws) k t rows h =
      captured_final ws k t (write sha1_hex parse_url read_xml now w rows)
        (write_keeps now w k t rows h)
