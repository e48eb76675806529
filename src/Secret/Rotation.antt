-- ===== src/Secret/Rotation.antt =====
-- The `Rotator` of internal/secret/rotation.go. `since created now` stands for
-- `time.Since(created)` at the reading `now` of the clock, `encode` for `hex.EncodeToString`, and
-- `random n` for the n bytes that `rand.Read` gives. `K` is the type of the callbacks; a call of
-- one is an entry of the result.
use nyxora.Common.{
  ℕ, Bool, true, false, String, Option, none, some, List, [], ◌∷◌, ◌++◌, if◌then◌else◌, Outcome,
  done, panic, length,
}
use nyxora.Common.Bytes.{Bytes}
use nyxora.Common.Words.{add_int, lt_int, mul_int}
use nyxora.Common.Assoc.{get, put}

pub record RotationConfig : Type 0 where
  pub interval : ℕ
  pub max_age : ℕ
  pub auto_rotate : Bool
  pub secret_path : String

pub record SecretInfo : Type 0 where
  pub name : String
  pub value : String
  pub created_at : ℕ
  pub rotated_at : ℕ
  pub rotate_count : ℕ

-- `stop_closed`: the channel `stopCh` is closed.
pub record Rotator (K : Type 0) : Type 0 where
  pub config : RotationConfig
  pub secrets : List (String × SecretInfo)
  pub running : Bool
  pub stop_closed : Bool
  pub on_rotate : Option K

pub record RotationStats : Type 0 where
  pub secrets : ℕ
  pub running : Bool
  pub interval : ℕ
  pub max_age : ℕ

-- What the loop of `rotate` reads for one secret: the clock for the age, the random bytes, and
-- the clock for `RotatedAt`.
pub record Reading : Type 0 where
  pub checked : ℕ
  pub random : ℕ → Bytes
  pub rotated : ℕ

-- A call of the callback.
pub record Call (K : Type 0) : Type 0 where
  pub callback : K
  pub name : String
  pub old_value : String
  pub new_value : String

-- An hour of `time.Duration`.
abbrev hour : ℕ
hour = 3600000000000

abbrev pub default_rotation_config : RotationConfig
default_rotation_config = record {
  interval = mul_int 24 hour;
  max_age = mul_int (mul_int 30 24) hour;
  auto_rotate = true;
  secret_path = "/etc/nyxora/secrets";
}

unfoldable pub generate_secret : (Bytes → String) → (ℕ → Bytes) → ℕ → String
generate_secret encode random n = encode (random n)

abbrev pub value_of : Option SecretInfo → String × Bool
value_of (some secret) = (secret.value, true)
value_of none = ("", false)

abbrev pub is_aged : (ℕ → ℕ → ℕ) → ℕ → SecretInfo → Reading → Bool
is_aged since max_age secret reading = lt_int max_age (since secret.created_at reading.checked)

abbrev pub renewed : (Bytes → String) → SecretInfo → Reading → SecretInfo
renewed encode secret reading = record secret {
  value = generate_secret encode reading.random 32;
  rotated_at = reading.rotated;
  rotate_count = add_int secret.rotate_count 1;
}

module _ {K : Type 0} where
  unfoldable pub new_rotator : RotationConfig → Rotator K
  new_rotator config = record {
    config = config;
    secrets = [];
    running = false;
    stop_closed = false;
    on_rotate = none;
  }

  -- `created` and `rotated` are the two readings of the clock.
  unfoldable pub register : String → String → ℕ → ℕ → Rotator K → Rotator K
  register name value created rotated r = record r {
    secrets = put r.secrets name (record {
      name = name;
      value = value;
      created_at = created;
      rotated_at = rotated;
      rotate_count = 0;
    });
  }

  unfoldable pub set_on_rotate : Option K → Rotator K → Rotator K
  set_on_rotate f r = record r { on_rotate = f }

  -- The loop that `Start` leaves running calls `rotate_now` after each interval.
  unfoldable pub start : Rotator K → Rotator K
  start r = if r.config.auto_rotate then record r { running = true } else r

  unfoldable pub close_stop : Bool → Rotator K → Outcome (Rotator K)
  close_stop true r = panic
  close_stop false r = done (record r { stop_closed = true; running = false })

  unfoldable pub stop : Rotator K → Outcome (Rotator K)
  unfolding close_stop
  stop r = if r.running then close_stop r.stop_closed r else done r

  unfoldable pub get_secret : String → Rotator K → String × Bool
  get_secret name r = value_of (get r.secrets name)

  unfoldable pub stats : Rotator K → RotationStats
  stats r = record {
    secrets = length r.secrets;
    running = r.running;
    interval = r.config.interval;
    max_age = r.config.max_age;
  }

  abbrev pub calls_of : Option K → String → String → String → List (Call K)
  calls_of none name old_value new_value = []
  calls_of (some f) name old_value new_value =
      record { callback = f; name = name; old_value = old_value; new_value = new_value } ∷ []

  module _ (encode : Bytes → String) (since : ℕ → ℕ → ℕ) where
    -- The loop of `rotate`: the secrets afterwards and the calls of the callback.
    unfoldable pub rotate_secrets :
        ℕ
        → Option K
        → (String → Reading)
        → List (String × SecretInfo)
        → List (String × SecretInfo) × List (Call K)
    rotate_secrets max_age f readings [] = ([], [])
    rotate_secrets max_age f readings (e ∷ m) =
        let rest = rotate_secrets max_age f readings m in
        if is_aged since max_age e.1 (readings e.0)
        then (
          (e.0, renewed encode e.1 (readings e.0)) ∷ rest.0,
          calls_of f e.0 e.1.value (generate_secret encode (readings e.0).random 32) ++ rest.1,
        )
        else (e ∷ rest.0, rest.1)

    unfoldable pub rotate : (String → Reading) → Rotator K → Rotator K × List (Call K)
    unfolding rotate_secrets
    rotate readings r =
        let new = rotate_secrets r.config.max_age r.on_rotate readings r.secrets in
        (record r { secrets = new.0 }, new.1)

    -- Rounds of the loop, one after another.
    unfoldable pub rotate_rounds : List (String → Reading) → Rotator K → Rotator K
    unfolding rotate
    rotate_rounds [] r = r
    rotate_rounds (readings ∷ rounds) r = rotate_rounds rounds (rotate readings r).0
