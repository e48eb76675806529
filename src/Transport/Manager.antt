-- ===== src/Transport/Manager.antt =====
-- internal/transport/manager.go. A `Transport` is what its methods answer during the call; a call
-- of `Disconnect` is an entry of the list of names that an operation returns.
use nyxora.Common.{
  ℕ, Bool, true, false, not, String, str_eq, Option, none, some, List, [], ◌∷◌, ◌++◌, map, ◌==◌,
  if◌then◌else◌, length, keep,
}
use nyxora.Common.Words.{add_int, mul_int, div_int}
use nyxora.Common.Float.{Float64, float_zero}
use nyxora.Common.Sort.{sort_slice}
use nyxora.Common.Assoc.{get, put, remove, values, update_all}
use nyxora.Transport.Registry.{TunnelMeta, tunnel_registry}

pub data Status : Type 0 where
  active inactive failed testing : Status

pub record Metrics (F : Type 0) : Type 0 where
  pub latency_ms : F
  pub jitter_ms : F
  pub packet_loss : F
  pub bandwidth : ℕ
  pub stability : F

pub record Transport (F : Type 0) : Type 0 where
  pub name : String
  pub kind : String
  pub status : Status
  pub metrics : Metrics F
  pub score : F

pub record Info (F : Type 0) : Type 0 where
  pub name : String
  pub kind : String
  pub status : Status
  pub score : F
  pub latency : F
  pub jitter : F
  pub loss : F
  pub stability : F
  pub bandwidth : ℕ
  pub weight : ℕ

pub record Manager (F : Type 0) : Type 0 where
  pub transports : List (String × Transport F)
  pub active : List (String × Bool)
  pub weights : List (String × ℕ)
  pub all_active : Bool

-- `m[k]` on a map of flags or numbers: a missing key reads as the zero value.
abbrev pub or_false : Option Bool → Bool
or_false none = false
or_false (some b) = b

abbrev pub flag : List (String × Bool) → String → Bool
flag m k = or_false (get m k)

abbrev pub number : List (String × ℕ) → String → ℕ
number m k = elim (get m k) [ none ↦ 0 | some n ↦ n ]

-- The loop over the registry in `Register`, which stops at the first match.
unfoldable pub registered_weight : List TunnelMeta → String → List (String × ℕ) → List (String × ℕ)
registered_weight [] name weights = weights
registered_weight (t ∷ ts) name weights =
    let rest = registered_weight ts name weights in
    if str_eq t.name name then put weights name t.weight else rest

-- What a goroutine of `ConnectAll` sends: the name, and the score or the failure of `Connect`.
pub record ConnectResult (F : Type 0) : Type 0 where
  pub name : String
  pub score : F
  pub is_error : Bool

unfoldable pub sum_weights : ℕ → List (String × ℕ) → ℕ
sum_weights total [] = total
sum_weights total (e ∷ m) = sum_weights (add_int total e.1) m

module _ {F : Type 0} where
  unfoldable pub new_manager : Bool → Manager F
  new_manager all_active = record {
    transports = [];
    active = [];
    weights = [];
    all_active = all_active;
  }

  unfoldable pub register : Transport F → Manager F → Manager F
  register t m = record m {
    transports = put m.transports t.name t;
    weights = registered_weight tunnel_registry t.name m.weights;
  }

  unfoldable pub get_transport : Manager F → String → Option (Transport F)
  get_transport m name = get m.transports name

  abbrev pub info : Transport F → ℕ → Info F
  info t weight = record {
    name = t.name;
    kind = t.kind;
    status = t.status;
    score = t.score;
    latency = t.metrics.latency_ms;
    jitter = t.metrics.jitter_ms;
    loss = t.metrics.packet_loss;
    stability = t.metrics.stability;
    bandwidth = t.metrics.bandwidth;
    weight = weight;
  }

  unfoldable pub active_infos : Manager F → List (String × Transport F) → List (Info F)
  active_infos m [] = []
  active_infos m (e ∷ ts) =
      let rest = active_infos m ts in
      if flag m.active e.0 then info e.1 (number m.weights e.0) ∷ rest else rest

  unfoldable pub active_list : Manager F → List (Info F)
  active_list m = active_infos m m.transports

  unfoldable pub set_all_active : Bool → Manager F → Manager F
  set_all_active on m = record m { all_active = on }

  abbrev pub activate_at : String → Manager F → Option (Transport F) → Manager F × Bool
  activate_at name m none = (m, false)
  activate_at name m (some t) = (record m { active = put m.active name true }, true)

  unfoldable pub activate : String → Manager F → Manager F × Bool
  activate name m = activate_at name m (get m.transports name)

  unfoldable pub deactivate : String → Manager F → Manager F
  deactivate name m = record m { active = remove m.active name }

  unfoldable pub is_active : Manager F → String → Bool
  is_active m name = flag m.active name

  unfoldable pub active_names : Manager F → List String
  active_names m = map (λ e. e.0) m.active

  unfoldable pub active_count : Manager F → ℕ
  active_count m = length m.active

  unfoldable pub get_weights : Manager F → List (String × ℕ)
  get_weights m = m.weights

  unfoldable pub set_weight : String → ℕ → Manager F → Manager F
  set_weight name weight m = record m { weights = put m.weights name weight }

  unfoldable pub normalize_weights : Manager F → Manager F
  normalize_weights m =
      let total = sum_weights 0 m.weights in
      if total == 0
      then m
      else record m { weights = update_all (λ w. div_int (mul_int w 100) total) m.weights }

  unfoldable pub active_transports : Manager F → List (String × Transport F) → List String
  active_transports m [] = []
  active_transports m (e ∷ ts) =
      let rest = active_transports m ts in if flag m.active e.0 then e.0 ∷ rest else rest

  -- The manager, and the transports that were disconnected.
  unfoldable pub disconnect_all : Manager F → Manager F × List String
  disconnect_all m = (record m { active = [] }, active_transports m m.transports)

  unfoldable pub activate_all : List (ConnectResult F) → List (String × Bool) → List (String × Bool)
  activate_all [] flags = flags
  activate_all (c ∷ cs) flags = activate_all cs (put flags c.name true)

  abbrev pub names : List (ConnectResult F) → List String
  names = map (λ c. c.name)

module _ {F : Type 0} ⦃fl : Float64 F⦄ where
  unfoldable pub list : Manager F → List (Info F)
  list m =
      sort_slice (λ x y. fl.lt y.score x.score)
        (map (λ t. info t (number m.weights t.name)) (values m.transports))

  abbrev pub higher : ConnectResult F → ConnectResult F → Bool
  higher x y = fl.lt y.score x.score

  -- The end of `ConnectAll`, on the candidates in order of their scores.
  unfoldable pub settle :
      Manager F → List String → List (ConnectResult F) → Manager F × Bool × List String
  settle m failures [] = (m, false, failures)
  settle m failures (best ∷ others) =
      if m.all_active
      then (record m { active = activate_all (best ∷ others) m.active }, true, failures)
      else (record m { active = put m.active best.name true }, true, failures ++ names others)

  -- `ConnectAll` on the results that the goroutines sent, in the order in which they came. It
  -- returns the manager, whether it ended without an error, and the transports that it
  -- disconnected.
  unfoldable pub connect_all : List (ConnectResult F) → Manager F → Manager F × Bool × List String
  connect_all results m =
      settle m (names (keep (λ r. r.is_error) results))
        (sort_slice higher (keep (λ r. not r.is_error) results))

  unfoldable pub best_from :
      Option (Transport F) → F → List (String × Transport F) → Option (Transport F) × F
  best_from best best_score [] = (best, best_score)
  best_from best best_score (e ∷ ts) =
      let higher = fl.lt best_score (e.1).score in
      best_from (if higher then some e.1 else best) (if higher then (e.1).score else best_score) ts

  unfoldable pub best : Manager F → Option (Transport F) × F
  best m = best_from none float_zero m.transports
