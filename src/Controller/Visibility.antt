-- ===== src/Controller/Visibility.antt =====
-- handleVisibility of internal/controller/controller.go.
use rehydrator.Base.{ℕ, ◌⊎◌, inl, inr, Bool, true, false, List, [], ◌∷◌, if◌then◌else◌, Text, codes}
use rehydrator.Db.Media.{Item, or_empty}
use rehydrator.Controller.{Options, Gateway, Fault, item_has_usable_path, rearm_ready}
use rehydrator.Controller.Outcome.{
  Verdict, metadata_pending, waiting, settled, record_outcome, after_status_error,
}

-- the message of a row whose file is still not readable: its last error, if it has one
abbrev pub still_waiting : Text → Text
still_waiting [] = codes "waiting for CSI/rclone mount visibility after successful provider add"
still_waiting (c ∷ t) = c ∷ t

-- after the answer of the provider; the second probe follows the refresh of rclone
abbrev pub check_visibility : Bool → Item → Bool ⊎ Fault → Verdict
check_visibility readable m (inr fault) = after_status_error fault
check_visibility readable m (inl false) =
    waiting (codes "waiting for provider completion before mount visibility")
check_visibility readable m (inl true) =
    if readable
    then settled (or_empty m.info_hash)
    else waiting (still_waiting (or_empty m.last_error))

-- `first` and `second` are the answers of the two probes of the path
unfoldable pub decide_visibility : Gateway → Bool → Bool → Item → Verdict
decide_visibility g first second m =
    if item_has_usable_path m
    then check_visibility second m (rearm_ready g first m (or_empty m.info_hash))
    else metadata_pending

-- handleVisibility
unfoldable pub handle_visibility :
    Options → Gateway → Bool → Bool → ℕ → Item → List Item → List Item
handle_visibility o g first second now m =
    record_outcome o now m.id (decide_visibility g first second m)
