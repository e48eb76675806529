-- ===== src/Config/Loaded.antt =====
-- The configurations that internal/config/config.go loads.
use Prim.Native.String.append
use Prim.Native.String.{◌++◌ as concat}
use mathlib.Core.Path.{subst}
use nyxora.Common.{
  ◌≡◌, ◌≢◌, refl, sym, ◌∙◌, inl, inr, String, str_eq, Option, none, some, Bool-cases,
}
use nyxora.Common.Assoc.{name_ne}
use nyxora.Config.Settings.{
  Secrets, Config, ConfigError, default_config, validate, check_all_overrides,
}
use nyxora.Config.Modes.{is_valid_mode, mode_in}
use nyxora.Config.Loading.{
  File, missing, unreadable, holds, Loaded, loaded, failed, token, generate_random_token, or_set,
  load_secrets, when_valid, load_file, load, config_path, when_parsed,
}

-- No secret is empty.
abbrev pub AreSet : Secrets → Type 0
AreSet s =
    (s.ss_password ≢ "")
    × (s.ss_method ≢ "")
    × (s.rathole_token ≢ "")
    × (s.hysteria_auth ≢ "")
    × (s.backhaul_token ≢ "")
    × (s.ipsec_psk ≢ "")

or_set-IsSet : (s default : String) → default ≢ "" → or_set s default ≢ ""
or_set-IsSet s default h = elim (Bool-cases (str_eq s "")) [
  | inl t ↦ rw t h
  | inr t ↦ rw t (name_ne s "" t)
]

abbrev IsText : String → Type 0
IsText String.[] = ⊥
IsText (String.◌∷◌ c s) = Unit

concat-IsSet : (prefix rest : String) → prefix ≢ "" → concat prefix rest ≢ ""
concat-IsSet String.[] rest h e = h refl
concat-IsSet (String.◌∷◌ c s) rest h e = absurd (subst IsText (sym (append.cons c s rest) ∙ e) tt)

generate_random_token-IsSet :
    (hex : String → Option String) (prefix : String)
    → prefix ≢ ""
    → generate_random_token hex prefix ≢ ""
unfolding generate_random_token
generate_random_token-IsSet hex prefix h = token-IsSet prefix h (hex prefix)
  where
    token-IsSet :
        (prefix : String) → prefix ≢ "" → (bytes : Option String) → token prefix bytes ≢ ""
    token-IsSet prefix h none = concat-IsSet prefix "-fallback" h
    token-IsSet prefix h (some bytes) = concat-IsSet prefix (concat "-" bytes) h

load_secrets-AreSet :
    (env : String → String) (hex : String → Option String) → AreSet (load_secrets env hex)
unfolding load_secrets
load_secrets-AreSet env hex = (
  or_set-IsSet (env "NYXORA_SS_PASSWORD") _
      (generate_random_token-IsSet hex "nyxora-ss" (name_ne "nyxora-ss" "" refl)),
  or_set-IsSet (env "NYXORA_SS_METHOD") _ (name_ne "aes-256-gcm" "" refl),
  or_set-IsSet (env "NYXORA_RATHOLE_TOKEN") _
      (generate_random_token-IsSet hex "nyxora-rathole" (name_ne "nyxora-rathole" "" refl)),
  or_set-IsSet (env "NYXORA_HYSTERIA_AUTH") _
      (generate_random_token-IsSet hex "nyxora-hy2" (name_ne "nyxora-hy2" "" refl)),
  or_set-IsSet (env "NYXORA_BACKHAUL_TOKEN") _
      (generate_random_token-IsSet hex "nyxora-bh" (name_ne "nyxora-bh" "" refl)),
  or_set-IsSet (env "NYXORA_IPSEC_PSK") _
      (generate_random_token-IsSet hex "nyxora-ipsec" (name_ne "nyxora-ipsec" "" refl)),
)

-- What holds of a configuration that is returned.
abbrev IsReady : Loaded → Type 0
IsReady (loaded c) = (validate c ≡ none) × AreSet c.secrets
IsReady (failed e) = Unit

module _ (env : String → String) (hex : String → Option String) where
  when_valid-IsReady :
      (c : Config) (e : Option ConfigError) → validate c ≡ e → IsReady (when_valid env hex c e)
  unfolding validate
  when_valid-IsReady c none h = (h, load_secrets-AreSet env hex)
  when_valid-IsReady c (some e) h = tt

  when_parsed-IsReady : (c : Option Config) → IsReady (when_parsed env hex c)
  unfolding when_parsed
  when_parsed-IsReady none = tt
  when_parsed-IsReady (some c) = when_valid-IsReady c (validate c) refl

  load_file-IsReady :
      {D : Type 0} (decode : D → Config → Option Config) (file : File D)
      → IsReady (load_file env hex decode file)
  unfolding load_file validate is_valid_mode mode_in check_all_overrides
  load_file-IsReady decode missing = (refl, load_secrets-AreSet env hex)
  load_file-IsReady decode unreadable = tt
  load_file-IsReady decode (holds text) = when_parsed-IsReady (decode text default_config)

-- A configuration that `Load` returns, for any content of the file and any environment, passes
-- `Validate`, and none of its secrets is empty.
pub load-IsReady :
    {D : Type 0} (env : String → String) (hex : String → Option String)
    (decode : D → Config → Option Config) (read : String → File D) (path : String) (c : Config)
    → load env hex decode read path ≡ loaded c
    → (validate c ≡ none) × AreSet c.secrets
unfolding load
load-IsReady env hex decode read path c e =
    subst IsReady e (load_file-IsReady env hex decode (read (config_path path)))
