-- ===== src/Db/Grabs/Settled.antt =====
-- After linkGrabSources, CurrentGrabSourcePending asks only whether the newest import is captured.
use rehydrator.Base.{ℕ, Bool, false, not, Option, none, some, List, if◌then◌else◌, Text}
use rehydrator.Db.Media.{Item, SavedSource}
use rehydrator.Db.Media.NzbJobs.{UsenetJob}
use rehydrator.Db.Grabs.{GrabRow}
use rehydrator.Db.Grabs.Links.{adopt_grab, current_grab, is_linkable}

-- the newest import is still to be captured
abbrev pub awaits_capture : Option GrabRow → Bool
awaits_capture none = false
awaits_capture (some g) = not g.ready

module _ (now : ℕ) (grabs : List GrabRow) (jobs : List UsenetJob) where
  -- a row that is linked with a grab
  abbrev linked_row : Item → Option GrabRow → Item
  linked_row m o = record (adopt_grab jobs m o) { updated_at = now }

module _ (now : ℕ) (tenant id : Text) (grabs : List GrabRow) (jobs : List UsenetJob)
    (sources : List SavedSource) where
  -- the row if it is linked or not
  abbrev linked_if : Item → Bool → Item
  linked_if m b = if b then linked_row now grabs jobs m (current_grab grabs m) else m

  -- the row after the statement
  abbrev after : Item → Item
  after m =
      if is_linkable tenant id grabs sources m
      then linked_row now grabs jobs m (current_grab grabs m)
      else m
