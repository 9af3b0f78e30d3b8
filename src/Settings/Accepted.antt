-- ===== src/Settings/Accepted.antt =====
-- What an accepted configuration guarantees.
use rehydrator.Base.{ℕ, ◌≤◌, ◌≡◌, ◌≢◌, [], ◌∷◌, ◌++◌, All, ℤ, pos, Text}
use rehydrator.Base.Paths.{slash, dot, dotdot, clean}
use rehydrator.Settings.{GatewayConfig}

-- a single path component, on Windows as well
abbrev pub IsComponent : Text → Type 0
IsComponent name =
    (name ≢ []) × (name ≢ dot) × (name ≢ dotdot) × All (λ c. (c ≢ slash) × (c ≢ b'\\')) name

abbrev pub IsAtLeast : ℕ → ℤ → Type 0
IsAtLeast low i = (n : ℕ) × (i ≡ pos n) × (low ≤ n)

abbrev pub IsWithin : ℕ → ℕ → ℤ → Type 0
IsWithin low high i = (n : ℕ) × (i ≡ pos n) × (low ≤ n) × (n ≤ high)

-- an absolute path that is not the root
abbrev pub IsAbsolute : Text → Type 0
IsAbsolute path = (rest : Text) × (path ≡ slash ∷ rest) × (rest ≢ [])

-- no path under `outer` is `inner`, once both are cleaned
abbrev pub IsOutside : Text → Text → Type 0
IsOutside inner outer = (rest : Text) → clean inner ≢ clean outer ++ (slash ∷ rest)

-- what is accepted of the gateway's storage
abbrev pub HasStorage : GatewayConfig → Type 0
HasStorage g =
    IsAtLeast 60 g.submit_interval_seconds
    × IsAbsolute g.mount_path
    × IsAbsolute g.download_path
    × IsOutside g.download_path g.mount_path
    × IsOutside g.mount_path g.download_path
