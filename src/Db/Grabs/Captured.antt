-- ===== src/Db/Grabs/Captured.antt =====
-- Only validated sources are captured.
use rehydrator.Base.{
  ℕ, ◌+◌, ◌≡◌, refl, sym, ◌∙◌, inl, inr, Bool, true, false, Option, some, List, [], ◌∷◌, ◌++◌,
  arith, Bool-cases, all, any, All, All-append, Text, text_eq,
}
use rehydrator.Base.Strings.{trim_space}
use rehydrator.Model.Types.{TorrentMetadata}
use rehydrator.Model.Source.{Checked, valid, recovery, rejected, Url, Token, validate_source}
use rehydrator.Db.Rows.{update, All-update}
use rehydrator.Db.Grabs.{
  GrabKey, GrabSource, GrabRow, of_grab, normal_key, is_open, is_valid_row, checked_rows, no_source,
  new_grab, merge_source, queued_source, queue_grab_source, capture, complete_checked,
  complete_grab_source, retry_grab_source, note_import, record_grab_import,
}
use rehydrator.Db.Grabs.Kept.{
  GrabWrite, queue_source, complete_source, retry_source, record_import, rows_or, queued_or,
  affected_or, write, write_all,
}

module _ (sha1_hex : Text → Text) (parse_url : Text → Option Url)
    (read_xml : Text → List Token × Bool) where
  -- a captured row has the columns of a source that was found valid
  unfoldable pub IsCaptured : GrabRow → Type 0
  IsCaptured r =
      r.ready ≡ true
      → (g : TorrentMetadata) × (v : TorrentMetadata) × (validate_source sha1_hex parse_url read_xml
            g
          ≡ valid v)
        × (r.torrent ≡ record v { torrent_url = []; source = []; download_id = [] })

  checked-IsCaptured :
      (rows after : List GrabRow)
      → All IsCaptured rows
      → All IsCaptured after
      → All IsCaptured (rows_or rows (checked_rows after))
  unfolding checked_rows
  checked-IsCaptured rows after h j = elim (Bool-cases (all is_valid_row after)) [
    | inl e ↦ rw e j
    | inr e ↦ rw e h
  ]

  added-IsCaptured :
      (rows : List GrabRow) (r : GrabRow)
      → r.ready ≡ false
      → All IsCaptured rows
      → All IsCaptured (rows ++ (r ∷ []))
  unfolding IsCaptured
  added-IsCaptured rows r waits h =
      All-append IsCaptured rows (r ∷ []) h ((λ d. absurd (cc (sym waits ∙ d))), tt)

  queue-IsCaptured :
      (now : ℕ) (g : GrabSource) (rows : List GrabRow)
      → All IsCaptured rows
      → All IsCaptured (queued_or rows (queue_grab_source now g rows))
  unfolding queue_grab_source IsCaptured
  queue-IsCaptured now g rows h =
      let l = normal_key g.key in
      let change : GrabRow → GrabRow =
        λ r. record r { torrent = merge_source g.torrent r.torrent } in
      let changed = update (is_open l) change rows in
      let added = rows ++ (new_grab now l (queued_source g.torrent) ∷ []) in
      elim (Bool-cases (any (of_grab l) rows)) [
        | inl e ↦
            rw (e, affected_or (any (is_open l) rows) rows (checked_rows changed))
              (checked-IsCaptured rows changed h (
                All-update IsCaptured IsCaptured (is_open l) change
                  (λ r p t d. absurd (ground arith)) (λ r p t. p) rows h))
        | inr e ↦
            rw (e, affected_or true rows (checked_rows added))
              (checked-IsCaptured rows added h
                (added-IsCaptured rows (new_grab now l (queued_source g.torrent)) refl h))
      ]

  complete-IsCaptured :
      (l : GrabKey) (g : TorrentMetadata) (rows : List GrabRow) (c : Checked TorrentMetadata)
      → validate_source sha1_hex parse_url read_xml g ≡ c
      → All IsCaptured rows
      → All IsCaptured (rows_or rows (complete_checked l rows c))
  unfolding IsCaptured
  complete-IsCaptured l g rows (valid v) e h =
      checked-IsCaptured rows (update (is_open l) (capture v) rows) h (
        All-update IsCaptured IsCaptured (is_open l) (capture v) (λ r p t d. (g, v, e, refl))
          (λ r p t. p) rows h)
  complete-IsCaptured l g rows recovery e h = h
  complete-IsCaptured l g rows rejected e h = h

  import-IsCaptured :
      (now : ℕ) (key : GrabKey) (path : Text) (rows : List GrabRow)
      → All IsCaptured rows
      → All IsCaptured (rows_or rows (record_grab_import now key path rows))
  unfolding record_grab_import IsCaptured
  import-IsCaptured now key path rows h =
      let l = normal_key key in
      let change = note_import now path in
      elim (Bool-cases (text_eq (trim_space path) [])) [
        | inl b ↦ rw b h
        | inr b ↦ rw b (elim (Bool-cases (any (of_grab l) rows)) [
          | inl e ↦ rw e (
              checked-IsCaptured rows (update (of_grab l) change rows) h (
                All-update IsCaptured IsCaptured (of_grab l) change (λ r p t. p) (λ r p t. p) rows
                  h))
          | inr e ↦ rw e (
              checked-IsCaptured rows (rows ++ (change (new_grab now l no_source) ∷ [])) h
                (added-IsCaptured rows (change (new_grab now l no_source)) refl h))
        ])
      ]

  write-IsCaptured :
      (now : ℕ) (w : GrabWrite) (rows : List GrabRow)
      → All IsCaptured rows
      → All IsCaptured (write sha1_hex parse_url read_xml now w rows)
  unfolding write complete_grab_source retry_grab_source IsCaptured
  write-IsCaptured now (queue_source g) rows h = queue-IsCaptured now g rows h
  write-IsCaptured now (complete_source g) rows h =
      complete-IsCaptured (normal_key g.key) g.torrent rows
        (validate_source sha1_hex parse_url read_xml g.torrent) refl h
  write-IsCaptured now (retry_source key reason) rows h =
      All-update IsCaptured IsCaptured (is_open (normal_key key))
        (λ r. record r { next_retry_at = now + 60; last_error = some reason }) (λ r p t. p)
        (λ r p t. p) rows h
  write-IsCaptured now (record_import key path) rows h = import-IsCaptured now key path rows h

  -- From a table where this holds, such as the empty one, every row that is ready has, after any
  -- sequence of the statements, the columns of a source that was found valid.
  pub write_all-IsCaptured :
      (ws : List (ℕ × GrabWrite)) (rows : List GrabRow)
      → All IsCaptured rows
      → All IsCaptured (write_all sha1_hex parse_url read_xml ws rows)
  unfolding write_all
  write_all-IsCaptured [] rows h = h
  write_all-IsCaptured ((now, w) ∷ ws) rows h =
      write_all-IsCaptured ws (write sha1_hex parse_url read_xml now w rows)
        (write-IsCaptured now w rows h)
