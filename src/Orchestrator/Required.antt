-- ===== src/Orchestrator/Required.antt =====
-- The memory that internal/orchestrator/connect.go asks of a remote host.
use nyxora.Common.{ℕ, ◌≤◌, inl, inr, ltb, arith, Bool-cases}
use nyxora.Common.Float.{Float64}
use nyxora.Common.Words.{mul_int}
use nyxora.Config.Modes.{
  ModeThresholds, mode_by_ram, effective_ram, thresholds_or_default, detect_mode_with_thresholds,
}
use nyxora.Config.Settings.{Config, detect_mode}
use nyxora.Orchestrator.Connecting.{min_ram, get_min_ram_for_mode}

min_ram-mode_by_ram : (t : ModeThresholds) (ram : ℕ) → min_ram t (mode_by_ram t ram) ≤ ram
min_ram-mode_by_ram t ram = elim (Bool-cases (ltb ram t.minimal_max_mb)) [
  | inl m ↦ rw m (omega arith)
  | inr m ↦ elim (Bool-cases (ltb ram t.lite_max_mb)) [
    | inl l ↦ rw (m, l) (ground (arith, m))
    | inr l ↦ rw (m, l) (ground (arith, l))
  ]
]

-- The memory that `ConnectToRemote` asks of a remote host for the mode that is detected on a
-- machine is at most the memory that this machine has available, for any thresholds and any load.
pub get_min_ram_for_mode-detect_mode :
    {F : Type 0} ⦃fl : Float64 F⦄ (load : F) (cpus avail : ℕ) (c : Config)
    → get_min_ram_for_mode (record c { mode = detect_mode load cpus avail c }) ≤ avail
unfolding get_min_ram_for_mode detect_mode detect_mode_with_thresholds mul_int
get_min_ram_for_mode-detect_mode load cpus avail c =
    let t = thresholds_or_default c.thresholds in
    let ram = effective_ram load cpus avail in
    let asked = min_ram-mode_by_ram t ram in
    let is_less : ram ≤ avail = ground arith in omega (arith, asked, is_less)
