-- ===== src/Secret/Aged.antt =====
-- Secrets older than MaxAge in internal/secret/rotation.go, and the loop that is started again.
use mathlib.Core.Option
use nyxora.Common.{
  ℕ, ◌+◌, ◌%◌, ◌^◌, ◌<◌, ◌≡◌, refl, ap, ◌∙◌, inl, inr, true, false, String, Option, some, List, [],
  ◌∷◌, if◌then◌else◌, arith, All, Bool-cases, length, panic, ◌>>=◌, str_eq, Bool, map,
}
use nyxora.Common.Bytes.{Bytes}
use nyxora.Common.Words.{add_int, lt_int}
use nyxora.Common.Assoc.{get, name_eq}
use nyxora.Secret.Rotation.{
  SecretInfo, Rotator, Reading, Call, generate_secret, is_aged, renewed, rotate_secrets, rotate,
  rotate_rounds, start, stop, close_stop,
}

-- A secret was created longer than the maximal age ago, as signed durations compare.
abbrev pub is_old : (ℕ → ℕ → ℕ) → ℕ → Reading → SecretInfo → Bool
is_old since max_age reading s = lt_int max_age (since s.created_at reading.checked)

-- What a round does to a secret: an old one has 32 random bytes, encoded, as its new value.
abbrev pub turned : (Bytes → String) → (ℕ → ℕ → ℕ) → ℕ → Reading → SecretInfo → SecretInfo
turned encode since max_age reading s =
    if is_old since max_age reading s
    then record {
      name = s.name;
      value = encode (reading.random 32);
      created_at = s.created_at;
      rotated_at = reading.rotated;
      rotate_count = (s.rotate_count + 1) % 2 ^ 64;
    }
    else s

-- The call that a round makes for a secret.
abbrev pub told :
    {K : Type 0} → (Bytes → String) → K → (String → Reading) → String × SecretInfo → Call K
told encode f readings e = record {
  callback = f;
  name = e.0;
  old_value = e.1.value;
  new_value = encode ((readings e.0).random 32);
}

get-rotate_secrets :
    (encode : Bytes → String) (since : ℕ → ℕ → ℕ) (max_age : ℕ) (readings : String → Reading)
    (m : List (String × SecretInfo)) (name : String)
    → get (map (λ e. (e.0, turned encode since max_age (readings e.0) e.1)) m) name
      ≡ Option.map (turned encode since max_age (readings name)) (get m name)
unfolding get
get-rotate_secrets encode since max_age readings [] name = refl
get-rotate_secrets encode since max_age readings (e ∷ m) name =
    elim (Bool-cases (str_eq e.0 name)) [
      | inl t ↦
          rw t (ap (λ n. some (turned encode since max_age (readings n) e.1)) (name_eq e.0 name t))
      | inr t ↦ rw t (get-rotate_secrets encode since max_age readings m name)
    ]

module _ {K : Type 0} (encode : Bytes → String) (since : ℕ → ℕ → ℕ) where
  rotate_secrets_lem :
      (max_age : ℕ) (f : Option K) (readings : String → Reading) (m : List (String × SecretInfo))
      → (rotate_secrets encode since max_age f readings m).0
        ≡ map (λ e. (e.0, turned encode since max_age (readings e.0) e.1)) m
  unfolding rotate_secrets generate_secret add_int
  rotate_secrets_lem max_age f readings [] = refl
  rotate_secrets_lem max_age f readings (e ∷ m) =
      elim (Bool-cases (is_aged since max_age e.1 (readings e.0))) [
        | inl t ↦ rw t (
            ap (◌∷◌ (e.0, renewed encode e.1 (readings e.0)))
              (rotate_secrets_lem max_age f readings m))
        | inr t ↦ rw t (ap (◌∷◌ e) (rotate_secrets_lem max_age f readings m))
      ]

  get-rotate :
      (readings : String → Reading) (r : Rotator K) (name : String) (s : SecretInfo)
      → get r.secrets name ≡ some s
      → is_aged since r.config.max_age s (readings name) ≡ true
      → get (rotate encode since readings r).0.secrets name
        ≡ some (renewed encode s (readings name))
  unfolding rotate generate_secret add_int
  get-rotate readings r name s h k =
      ap (λ m. get m name) (rotate_secrets_lem r.config.max_age r.on_rotate readings r.secrets)
      ∙ get-rotate_secrets encode since r.config.max_age readings r.secrets name
      ∙ ap (Option.map (turned encode since r.config.max_age (readings name))) h
      ∙ rw k refl

  -- A secret that was created longer than MaxAge ago in each of a number of rounds is renewed in
  -- every one of them: its count grows by the number of the rounds, in 64 bits, and it keeps the
  -- `CreatedAt` it had.
  pub rotate_rounds_aged :
      (rounds : List (String → Reading)) (r : Rotator K) (name : String) (s : SecretInfo)
      → get r.secrets name ≡ some s
      → s.rotate_count < 2 ^ 64
      → All (λ readings. is_aged since r.config.max_age s (readings name) ≡ true) rounds
      → (t : SecretInfo) × (get (rotate_rounds encode since rounds r).secrets name ≡ some t)
        × (t.rotate_count ≡ (s.rotate_count + length rounds) % 2 ^ 64)
        × (t.created_at ≡ s.created_at)
  unfolding rotate_rounds add_int
  rotate_rounds_aged [] r name s h k l = (s, h, omega arith, refl)
  rotate_rounds_aged (readings ∷ rounds) r name s h k l =
      let ih =
        rotate_rounds_aged rounds (rotate encode since readings r).0 name
          (renewed encode s (readings name)) (get-rotate readings r name s h l.0) (omega arith)
          l.1 in
      (ih.0, ih.1, omega (arith, ih.2), ih.3)

-- A rotator with AutoRotate that is started and stopped, and started again, panics when it is
-- stopped the second time.
stop-start_again :
    {K : Type 0} (r : Rotator K)
    → r.config.auto_rotate ≡ true
    → r.stop_closed ≡ false
    → (stop (start r) >>= λ s. stop (start s)) ≡ panic
unfolding start stop close_stop
stop-start_again r h k = ground arith
