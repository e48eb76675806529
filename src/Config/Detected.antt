-- ===== src/Config/Detected.antt =====
-- The mode that internal/config/config.go detects.
use nyxora.Common.{
  ℕ, ◌^◌, ◌≤◌, ◌<◌, ◌≡◌, refl, Bool, true, false, String, if◌then◌else◌, ltb, arith, Has, here,
  there, Option,
}
use nyxora.Common.Bytes.{Bytes}
use nyxora.Common.Words.{mul_int}
use nyxora.Common.Float.{Float64}
use nyxora.Config.Memory.{get_available_ram_mb, get_available_ram_mb-lt}
use nyxora.Config.Modes.{
  ModeThresholds, ServerMode, mode_lite, mode_minimal, mode_full, get_transports_for_mode,
  effective_ram, mode_by_ram, detect_mode_with_thresholds,
}

lite-Has-minimal :
    {t : String}
    → Has t (get_transports_for_mode mode_minimal)
    → Has t (get_transports_for_mode mode_lite)
unfolding get_transports_for_mode
lite-Has-minimal here = here
lite-Has-minimal (there here) = there here
lite-Has-minimal (there (there h)) = elim h [ ]

full-Has-lite :
    {t : String}
    → Has t (get_transports_for_mode mode_lite)
    → Has t (get_transports_for_mode mode_full)
unfolding get_transports_for_mode
full-Has-lite here = there (there here)
full-Has-lite (there here) = there (there (there (there (there (there (there here))))))
full-Has-lite (there (there here)) = there (there (there here))
full-Has-lite (there (there (there here))) =
    there (there (there (there (there (there (there (there (there (there here)))))))))
full-Has-lite (there (there (there (there here)))) = there (there (there (there here)))
full-Has-lite (there (there (there (there (there here))))) =
    there (there (there (there (there (there (there (there (there (there (there here))))))))))
full-Has-lite (there (there (there (there (there (there h)))))) = elim h [ ]

abbrev mode_of : Bool → Bool → ServerMode
mode_of minimal lite = if minimal then mode_minimal else if lite then mode_lite else mode_full

Has-mode_of :
    (a b c d : Bool) {name : String}
    → (c ≡ true → a ≡ true)
    → (d ≡ true → b ≡ true)
    → Has name (get_transports_for_mode (mode_of a b))
    → Has name (get_transports_for_mode (mode_of c d))
Has-mode_of true b true d h l k = k
Has-mode_of true b false true h l k = lite-Has-minimal k
Has-mode_of true b false false h l k = full-Has-lite (lite-Has-minimal k)
Has-mode_of false b true d h l k = absurd (ground (arith, h refl))
Has-mode_of false true false true h l k = k
Has-mode_of false true false false h l k = full-Has-lite k
Has-mode_of false false false true h l k = absurd (ground (arith, l refl))
Has-mode_of false false false false h l k = k

Has-mode_by_ram :
    (t : ModeThresholds) (m n : ℕ) {name : String}
    → m ≤ n
    → Has name (get_transports_for_mode (mode_by_ram t m))
    → Has name (get_transports_for_mode (mode_by_ram t n))
Has-mode_by_ram t m n h k =
    Has-mode_of (ltb m t.minimal_max_mb) (ltb m t.lite_max_mb) (ltb n t.minimal_max_mb)
      (ltb n t.lite_max_mb) (λ e. ground arith) (λ e. ground arith) k

module _ {F : Type 0} ⦃fl : Float64 F⦄ where
  effective_ram_mono :
      (load : F) (cpus m n : ℕ)
      → m ≤ n
      → n < 2 ^ 54
      → effective_ram load cpus m ≤ effective_ram load cpus n
  unfolding mul_int
  effective_ram_mono load cpus m n h k = ground arith

  -- Of two readings of /proc/meminfo under one load, a transport of the mode detected at the lower
  -- one is among those of the mode detected at the higher one, for any thresholds.
  pub detect_mode_with_thresholds_mono :
      (load : F) (cpus : ℕ) (t : ModeThresholds) (file bigger : Option Bytes) {name : String}
      → get_available_ram_mb file ≤ get_available_ram_mb bigger
      → Has name (
          get_transports_for_mode
            (detect_mode_with_thresholds load cpus (get_available_ram_mb file) t))
      → Has name (
          get_transports_for_mode
            (detect_mode_with_thresholds load cpus (get_available_ram_mb bigger) t))
  unfolding detect_mode_with_thresholds
  detect_mode_with_thresholds_mono load cpus t file bigger h k =
      Has-mode_by_ram t (effective_ram load cpus (get_available_ram_mb file))
        (effective_ram load cpus (get_available_ram_mb bigger))
        (effective_ram_mono load cpus _ _ h (get_available_ram_mb-lt bigger)) k
