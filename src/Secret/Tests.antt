-- ===== src/Secret/Tests.antt =====
-- The theorems on internal/secret at small inputs, and runs of the code.
use nyxora.Common.{
  ℕ, ◌+◌, ◌-◌, ◌%◌, ◌^◌, ◌≡◌, refl, true, String, some, List, [], ◌∷◌, arith, length,
}
use nyxora.Common.Bytes.{Bytes, codes, pieces, cut_at}
use nyxora.Common.Words.{lt_int, mul_int}
use nyxora.Common.Assoc.{get, put}
use nyxora.Secret.Files.{
  put_bytes, split_lines, save_secrets, load_line, load_lines, load_secrets, split_key_equals_value,
}
use nyxora.Secret.Saved.{load_secrets-save_secrets}
use nyxora.Secret.Rotation.{
  SecretInfo, Rotator, Reading, default_rotation_config, new_rotator, register, set_on_rotate,
  generate_secret, rotate_secrets, rotate, rotate_rounds, get_secret,
}
use nyxora.Secret.Aged.{rotate_rounds_aged}

abbrev stored : List (Bytes × Bytes)
stored = (codes "key", codes "a=b") ∷ (codes "", codes "") ∷ []

load_secrets-save_secrets_example : load_secrets (save_secrets stored) ≡ stored
load_secrets-save_secrets_example =
    load_secrets-save_secrets stored
      (
        ((refl, (refl, (refl, tt))), (refl, (refl, (refl, tt))), (refl, (refl, (refl, tt)))),
        ((tt, tt, tt), tt),
      )
      (((λ e. cc), tt), (tt, tt))

-- A line without an equals sign, and an empty line.
load_run : load_secrets (codes "x\n\na=1") ≡ (codes "a", codes "1") ∷ []
unfolding load_secrets load_lines load_line split_lines split_key_equals_value put_bytes pieces
    cut_at
load_run = refl

abbrev hidden : Bytes → String
hidden _ = "new"

abbrev minus : ℕ → ℕ → ℕ
minus created now = now - created

-- A month and a day after the start.
abbrev late : String → Reading
late _ = record { checked = 2700000000000000; random = λ n. []; rotated = 2700000000000001 }

abbrev rotator : Rotator ℕ
rotator = set_on_rotate (some 5) (register "psk" "old" 0 0 (new_rotator default_rotation_config))

abbrev psk : SecretInfo
psk = record { name = "psk"; value = "old"; created_at = 0; rotated_at = 0; rotate_count = 0 }

rotate_run : get_secret "psk" (rotate hidden minus late rotator).0 ≡ ("new", true)
unfolding get_secret rotate rotate_secrets generate_secret new_rotator register set_on_rotate lt_int
    get put mul_int
rotate_run = refl

rotate_rounds_aged_example :
    (t : SecretInfo) × (get (rotate_rounds hidden minus (late ∷ late ∷ []) rotator).secrets "psk"
      ≡ some t)
    × (t.rotate_count ≡ (0 + length (late ∷ late ∷ [])) % 2 ^ 64)
    × (t.created_at ≡ 0)
unfolding new_rotator register set_on_rotate lt_int get put mul_int
rotate_rounds_aged_example =
    rotate_rounds_aged hidden minus (late ∷ late ∷ []) rotator "psk" psk refl (omega arith)
      (refl, (refl, tt))
