-- ===== src/Torbox/Failure.antt =====
-- internal/torbox/failure.go and `Ready` of internal/torbox/usenet.go.
use rehydrator.Base.{
  is_some, Bool, true, false, ◌&&◌, ◌||◌, Option, none, some, [], ltb, if◌then◌else◌, length, Text,
  codes, text_eq,
}
use rehydrator.Base.Strings.{to_lower, trim_space, has_prefix, trim_prefix, contains}
use rehydrator.Torbox.Types.{UsenetDownload}

abbrev pub disk_message : Text
disk_message = codes "Unpacking failed, write error or disk is full?"

abbrev pub aborted_message : Text
aborted_message =
    codes
      "TorBox aborted the download because it cannot be completed. Acquire a replacement release through Arr."

abbrev pub failed_message : Text
failed_message =
    codes "TorBox reported a terminal download failure. Acquire a replacement release through Arr."

unfoldable pub reported_state : UsenetDownload → Text
unfolding to_lower trim_space
reported_state d =
    let state = if text_eq d.raw_state [] then d.state else d.raw_state in
    to_lower (trim_space state)

-- one round of the loop over the prefixes
unfoldable pub fails_as : Text → Text → Bool
unfolding has_prefix trim_prefix trim_space
fails_as state prefix =
    text_eq state prefix
    || (has_prefix state prefix
        && (let suffix = trim_space (trim_prefix state prefix) in
            has_prefix suffix (codes "(")
            || has_prefix suffix (codes ":")
            || has_prefix suffix (codes "-")))

unfoldable pub is_terminal : Text → Bool
unfolding fails_as
is_terminal state = fails_as state (codes "failed") || fails_as state (codes "aborted")

-- the choice of the message for a state that has failed
unfoldable pub explain : Text → Text
unfolding contains
explain state =
    if contains state (codes "disk full")
      || contains state (codes "disk is full")
      || contains state (codes "write error")
    then disk_message
    else if contains state (codes "cannot be completed") || contains state (codes "aborted")
    then aborted_message
    else failed_message

unfoldable pub failure_message : UsenetDownload → Option Text
unfolding reported_state is_terminal explain
failure_message d =
    let state = reported_state d in if is_terminal state then some (explain state) else none

abbrev pub nil_or_true : Option Bool → Bool
nil_or_true none = true
nil_or_true (some b) = b

unfoldable pub ready : UsenetDownload → Bool
unfolding to_lower
ready d =
    if is_some (failure_message d)
    then false
    else let state = to_lower d.state in
      (text_eq state (codes "cached") || text_eq state (codes "completed"))
      && nil_or_true d.present
      && ltb 0 (length d.files)
