-- ===== src/Csi/Probe.antt =====
-- `ReadProbe` of internal/csi/probe.go. Its mutex makes the start of a check and the end of a read
-- one step each. A read goes on when its caller's deadline has passed, so a step has no caller.
use rehydrator.Base.{
  ℕ, is_some, zero, suc, ◌+◌, ◌-◌, ◌*◌, ◌%◌, ◌≤◌, ◌<◌, min, ◌≡◌, refl, sym, ap, ◌∙◌, subst, ◌≢◌,
  ◌↔◌, ◌⊎◌, inl, inr, Bool, true, false, not, ◌&&◌, ◌||◌, Option, none, some, List, [], ◌∷◌, ◌++◌,
  map, append-nil, append_assoc, arith, ltb, leb, ◌==◌, if◌then◌else◌, ==_iff, ==_refl, leb→le,
  le→leb, lt→ltb, Bool-cases, Option-cases, &&-eq-true, ||-eq-false, length, take, drop, all, any,
  length-append, length-drop, take-append, String, drop-append, All, All-append, ℤ, pos, negsuc,
  is_negative, int_eq, eq_of_int_eq, Text, codes, text_eq, eq_of_text_eq, text_eq_refl, text_eq_iff,
  text_eq_swap,
}
pub mod Bounded

-- `slots` is the number of tokens in the channel, `limit` its capacity.
pub record ReadProbe : Type 0 where
  pub limit : ℕ
  pub slots : ℕ
  pub active : List Text

-- NewReadProbeWithLimit
unfoldable pub new_read_probe : ℕ → ReadProbe
new_read_probe limit = record { limit = if ltb limit 1 then 1 else limit; slots = 0; active = [] }

-- ErrProbePathBusy, ErrProbeBusy, or a read that was started
pub data Checked : Type 0 where
  path_busy probe_busy : Checked
  started : ReadProbe → Checked

-- Check up to the start of the goroutine, of a context that is not done
unfoldable pub check : Text → ReadProbe → Checked
check path p =
    if any (text_eq path) p.active
    then path_busy
    else if ltb p.slots p.limit
    then started (record p { slots = p.slots + 1; active = path ∷ p.active })
    else probe_busy

-- delete(p.active, path)
unfoldable pub without : Text → List Text → List Text
without path [] = []
without path (k ∷ ks) = let rest = without path ks in if text_eq path k then rest else k ∷ rest

-- the end of the goroutine
unfoldable pub release : Text → ReadProbe → ReadProbe
unfolding without
release path p = record p { slots = p.slots - 1; active = without path p.active }

-- The probe with the reads that are outstanding, a path for each.
pub record Reads : Type 0 where
  pub probe : ReadProbe
  pub running : List Text

-- `Takes path ks rest`: `ks` is `rest` with one `path` more, at some place.
pub data Takes (path : Text) : List Text → List Text → Type 0 where
  here : {ks : List Text} → Takes path (path ∷ ks) ks
  there : {k : Text} {ks rest : List Text} → Takes path ks rest → Takes path (k ∷ ks) (k ∷ rest)

pub data Step : Reads → Reads → Type 0 where
  begin :
      {s : Reads} {p : ReadProbe} (path : Text)
      → check path s.probe ≡ started p
      → Step s (record { probe = p; running = path ∷ s.running })
  return :
      {s : Reads} {rest : List Text} (path : Text)
      → Takes path s.running rest
      → Step s (record { probe = release path s.probe; running = rest })

pub data Reach (s : Reads) : Reads → Type 0 where
  stay : Reach s s
  next : {t u : Reads} → Reach s t → Step t u → Reach s u
