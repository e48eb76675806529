-- ===== src/Balancer.antt =====
-- internal/loadbalancer/balancer.go: the backends, their selection by each algorithm, and the
-- operations that change a backend. A method returns the new balancer. `*Backend` results are the
-- backend's value; every `int` is its 64-bit pattern, so a negative weight is a large number.
pub mod Pick
pub mod Select
pub mod Minimum
mod Window
pub mod Rotation
pub mod Health
pub mod Distinct
pub mod Affinity
pub mod Tests
use nyxora.Common.{
  ℕ, zero, suc, ◌+◌, ◌-◌, ◌*◌, ◌%◌, String, Bool, true, false, not, Option, none, some, List, [],
  ◌∷◌, ◌++◌, str_eq, ltb, ◌==◌, if◌then◌else◌, length, take, keep, Outcome, done, panic, ◌>>=◌,
  at_index,
}
use nyxora.Common.Best.{keep_least}
use nyxora.Common.Words.{add_int, rem_int, lt_int}
use nyxora.Common.Float.{Float64}

-- `Algorithm`, an `int`; `other` is any value without a name.
pub data Algorithm : Type 0 where
  round_robin weighted_round_robin least_connections least_latency random ip_hash : Algorithm
  other : ℕ → Algorithm

pub record Backend (F : Type 0) : Type 0 where
  pub name : String
  pub address : String
  pub port : ℕ
  pub weight : ℕ
  pub active_conns : ℕ
  pub total_conns : ℕ
  pub latency : F
  pub failure_count : ℕ
  pub last_failure : ℕ  -- the time, with 0 for Go's zero time
  pub healthy : Bool

pub record Balancer (F : Type 0) : Type 0 where
  pub backends : List (Backend F)
  pub algorithm : Algorithm
  pub current : ℕ
  pub round_robin : ℕ

pub record Stats : Type 0 where
  pub algorithm : Algorithm
  pub total : ℕ
  pub healthy : ℕ
  pub unhealthy : ℕ

-- What a selection returns: a backend or nil, and the balancer.
abbrev pub Selection : Type 0 → Type 0
Selection F = Outcome (Option (Backend F) × Balancer F)

-- `binary.BigEndian.Uint64` of the first 8 bytes.
pub big_endian : ℕ → List ℕ → ℕ
big_endian acc [] = acc
big_endian acc (x ∷ xs) = big_endian (acc * 256 + x) xs

abbrev pub is_ip_hash : Algorithm → Bool
is_ip_hash ip_hash = true
is_ip_hash _ = false

module _ {F : Type 0} where
  pub new_balancer : Algorithm → Balancer F
  new_balancer a = record { backends = []; algorithm = a; current = 0; round_robin = 0 }

  pub get_healthy : List (Backend F) → List (Backend F)
  get_healthy = keep (λ b. b.healthy)

  pub remove_first : String → List (Backend F) → List (Backend F)
  remove_first name [] = []
  remove_first name (b ∷ bs) =
      let rest = remove_first name bs in if str_eq b.name name then bs else b ∷ rest

  pub remove_backend : String → Balancer F → Balancer F
  unfolding remove_first
  remove_backend name s = record s { backends = remove_first name s.backends }

  -- The loops that change the first backend of a name and return.
  pub update_first : String → (Backend F → Backend F) → List (Backend F) → List (Backend F)
  update_first name f [] = []
  update_first name f (b ∷ bs) =
      let rest = update_first name f bs in if str_eq b.name name then f b ∷ bs else b ∷ rest

  pub update_metrics : String → F → ℕ → Balancer F → Balancer F
  update_metrics name latency conns s = record s {
    backends =
        update_first name (λ b. record b { latency = latency; active_conns = conns }) s.backends;
  }

  abbrev pub set_healthy : Backend F → Backend F
  set_healthy b = record b { healthy = true; failure_count = 0 }

  pub mark_healthy : String → Balancer F → Balancer F
  mark_healthy name s = record s { backends = update_first name set_healthy s.backends }

  abbrev pub set_unhealthy : ℕ → Backend F → Backend F
  set_unhealthy now b = record b {
    healthy = false;
    failure_count = add_int b.failure_count 1;
    last_failure = now;
  }

  pub mark_unhealthy : String → ℕ → Balancer F → Balancer F
  mark_unhealthy name now s = record s {
    backends = update_first name (set_unhealthy now) s.backends;
  }

  pub stats : Balancer F → Stats
  unfolding get_healthy
  stats s =
      let healthy = get_healthy s.backends in
      record {
        algorithm = s.algorithm;
        total = length s.backends;
        healthy = length healthy;
        unhealthy = length s.backends - length healthy;
      }

  abbrev pub chosen : Balancer F → Outcome (Backend F) → Selection F
  chosen s m = m >>= λ x. done (some x, s)

  pub round_robin_select : Balancer F → List (Backend F) → Selection F
  round_robin_select s backends =
      if length backends == 0
      then done (none, s)
      else chosen (record s { current = add_int s.current 1 })
          (at_index backends (rem_int s.current (length backends)))

  pub total_weight : ℕ → List (Backend F) → ℕ
  total_weight sum [] = sum
  total_weight sum (b ∷ bs) = total_weight (add_int sum b.weight) bs

  -- The loop `cumulative += Weight; if target < cumulative { return }` with the comparison that it
  -- uses; `none` is a loop that ran out.
  pub pick_below : (ℕ → ℕ → Bool) → ℕ → ℕ → List (Backend F) → Option (Backend F)
  pick_below less target cumulative [] = none
  pick_below less target cumulative (b ∷ bs) =
      let next = add_int cumulative b.weight in
      let rest = pick_below less target next bs in if less target next then some b else rest

  abbrev pub or_last : List (Backend F) → Option (Backend F) → Outcome (Backend F)
  or_last backends none = at_index backends (length backends - 1)
  or_last backends (some b) = done b

  pub weighted_round_robin_select : Balancer F → List (Backend F) → Selection F
  weighted_round_robin_select s backends =
      let total = total_weight 0 backends in
      let turn = add_int s.round_robin 1 % total in
      if length backends == 0
      then done (none, s)
      else if total == 0
      then chosen s (at_index backends 0)
      else chosen (record s { round_robin = turn })
          (or_last backends (pick_below lt_int turn 0 backends))

  abbrev pub fewer_conns : Backend F → Backend F → Bool
  fewer_conns a b = lt_int a.active_conns b.active_conns

  pub least_connections_select : Balancer F → List (Backend F) → Selection F
  least_connections_select s backends = done (keep_least fewer_conns none backends, s)

  -- `ticks` is `int(math.Abs(float64(time.Now().UnixNano())))`.
  pub random_select : ℕ → Balancer F → List (Backend F) → Selection F
  random_select ticks s backends =
      if length backends == 0
      then done (none, s)
      else chosen s (at_index backends (rem_int ticks (length backends)))

  pub ip_hash_select : (String → List ℕ) → Balancer F → List (Backend F) → String → Selection F
  ip_hash_select md5 s backends client_ip =
      let hash_val = big_endian 0 (take 8 (md5 client_ip)) in
      let total = total_weight 0 backends in
      if length backends == 0
      then done (none, s)
      else if total == 0
      then chosen s (at_index backends (hash_val % length backends))
      else chosen s (or_last backends (pick_below ltb (hash_val % total) 0 backends))

module _ {F : Type 0} ⦃fl : Float64 F⦄ where
  abbrev pub lower_latency : Backend F → Backend F → Bool
  lower_latency a b = fl.lt a.latency b.latency

  pub least_latency_select : Balancer F → List (Backend F) → Selection F
  least_latency_select s backends = done (keep_least lower_latency none backends, s)

  -- `AddBackend`: the fields that the literal leaves out are zero.
  pub add_backend : String → String → ℕ → ℕ → Balancer F → Balancer F
  add_backend name address port weight s = record s {
    backends =
        s.backends
        ++ (record {
          name = name;
          address = address;
          port = port;
          weight = weight;
          active_conns = 0;
          total_conns = 0;
          latency = fl.of_int 0;
          failure_count = 0;
          last_failure = 0;
          healthy = true;
        }
            ∷ []);
  }

  -- The `switch` of `Next`; the last clause is `default`.
  pub select : Algorithm → ℕ → Balancer F → List (Backend F) → Selection F
  unfolding round_robin_select weighted_round_robin_select least_connections_select
      least_latency_select random_select
  select weighted_round_robin ticks s backends = weighted_round_robin_select s backends
  select least_connections ticks s backends = least_connections_select s backends
  select least_latency ticks s backends = least_latency_select s backends
  select random ticks s backends = random_select ticks s backends
  select _ ticks s backends = round_robin_select s backends

  pub next : ℕ → Balancer F → Selection F
  unfolding get_healthy
  next ticks s =
      let healthy = get_healthy s.backends in
      if length healthy == 0 then done (none, s) else select s.algorithm ticks s healthy

  pub next_with_ip : (String → List ℕ) → String → ℕ → Balancer F → Selection F
  unfolding get_healthy
  next_with_ip md5 client_ip ticks s =
      let healthy = get_healthy s.backends in
      if length healthy == 0
      then done (none, s)
      else if is_ip_hash s.algorithm
      then ip_hash_select md5 s healthy client_ip
      else select s.algorithm ticks s healthy
