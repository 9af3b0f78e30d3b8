-- ===== src/Torbox/Types.antt =====
-- The downloads that the provider reports: `UsenetFile` and `UsenetDownload` of
-- internal/torbox/usenet.go. A `*bool` is an `Option Bool`. The JSON numbers Progress, Speed, Size
-- and Downloaded are shown to users only, and are left out.
use rehydrator.Base.{ℤ, Text, Bool, List, Option}

pub record UsenetFile : Type 0 where
  pub id : ℤ
  pub name : Text
  pub size : ℤ

pub record UsenetDownload : Type 0 where
  pub raw_state : Text
  pub finished : Option Bool
  pub cached : Option Bool
  pub id : ℤ
  pub name : Text
  pub state : Text
  pub present : Option Bool
  pub files : List UsenetFile
