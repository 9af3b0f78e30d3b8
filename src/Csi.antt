-- ===== src/Csi.antt =====
-- internal/csi: the probes of mounted files.
pub mod Probe
mod Tests
