-- ===== src/Csi/Tests.antt =====
-- The probe at concrete paths.
use rehydrator.Base.{◌≤◌, max, ◌≡◌, refl, [], ◌∷◌, codes}
use rehydrator.Csi.Probe.{
  ReadProbe, new_read_probe, path_busy, probe_busy, started, check, Reads, begin, Reach, stay, next,
}
use rehydrator.Csi.Probe.Bounded.{fresh, NoRepeat, reads_bounded}

abbrev one_read : ReadProbe
one_read = record { limit = 1; slots = 1; active = codes "/a" ∷ [] }

starts : check (codes "/a") (new_read_probe 0) ≡ started one_read
unfolding check new_read_probe
starts = refl

second_refused : check (codes "/b") one_read ≡ probe_busy
unfolding check
second_refused = refl

same_refused : check (codes "/a") one_read ≡ path_busy
unfolding check
same_refused = refl

abbrev reading : Reads
reading = record { probe = one_read; running = codes "/a" ∷ [] }

reading_reached : Reach (fresh 0) reading
reading_reached = next stay (begin (codes "/a") starts)

reads_bounded_example : (1 ≤ max 0 1) × NoRepeat (codes "/a" ∷ [])
reads_bounded_example = reads_bounded 0 reading_reached
