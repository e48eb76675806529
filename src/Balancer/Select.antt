-- ===== src/Balancer/Select.antt =====
-- `Next` and `NextWithIP`: what every algorithm promises of the backend that it returns.
use nyxora.Common.{
  ℕ, ◌-◌, ◌^◌, ◌<◌, ◌≡◌, refl, ap, Bool, true, false, ◌⊎◌, inl, inr, Option, none, some, List, [],
  ◌∷◌, arith, ltb, ◌==◌, ==_iff, if◌then◌else◌, Bool-cases, length, Has, get_elem?-lt,
  get_elem?-Has, Has-keep, keep_none, String, done, at_index,
}
use native.Mathlib.Nat.{mod-lt}
use nyxora.Common.Best.{keep_least, keep_least-Has}
use nyxora.Common.Words.{rem_int, rem_int-lt, lt_int}
use nyxora.Common.Float.{Float64}
use nyxora.Balancer.{
  Algorithm, weighted_round_robin, least_connections, least_latency, random, Backend, Balancer,
  Selection, chosen, get_healthy, round_robin_select, total_weight, or_last,
  weighted_round_robin_select, fewer_conns, random_select, ip_hash_select, lower_latency, select,
  next, is_ip_hash, next_with_ip,
}
use nyxora.Balancer.Pick.{pick_below-Has}

pub not_empty : (n : ℕ) → 0 < n → (n == 0) ≡ false
not_empty n h = ground arith

module _ {F : Type 0} where
  -- The call returns a backend of the list and leaves the list of backends as it is.
  abbrev pub Picks : Balancer F → List (Backend F) → Selection F → Type 0
  Picks s backends m =
      (b : Backend F) × (s' : Balancer F) × (m ≡ done (some b, s'))
      × Has b backends
      × (s'.backends ≡ s.backends)

  chosen-Picks :
      (s t : Balancer F) (backends : List (Backend F)) (i : ℕ)
      → t.backends ≡ s.backends
      → i < length backends
      → Picks s backends (chosen t (at_index backends i))
  chosen-Picks s t backends i e h =
      let (b, at) = get_elem?-lt backends i h in (b, t, rw at, get_elem?-Has backends i at, e)

  or_last-Picks :
      (s t : Balancer F) (backends : List (Backend F)) (o : Option (Backend F))
      → t.backends ≡ s.backends
      → 0 < length backends
      → ((b : Backend F) → o ≡ some b → Has b backends)
      → Picks s backends (chosen t (or_last backends o))
  or_last-Picks s t backends none e h f =
      chosen-Picks s t backends (length backends - 1) e (omega arith)
  or_last-Picks s t backends (some b) e h f = (b, t, refl, f b refl, e)

  module _ (s : Balancer F) (backends : List (Backend F)) (h : 0 < length backends) where
    round_robin-Picks : s.current < 2 ^ 63 → Picks s backends (round_robin_select s backends)
    unfolding round_robin_select
    round_robin-Picks c = rw (not_empty (length backends) h) (
        chosen-Picks s _ backends (rem_int s.current (length backends)) refl
          (rem_int-lt s.current (length backends) c h))

    weighted-Picks : Picks s backends (weighted_round_robin_select s backends)
    unfolding weighted_round_robin_select
    weighted-Picks =
        rw (not_empty (length backends) h) (elim (Bool-cases (total_weight 0 backends == 0)) [
          | inl e ↦ rw e (chosen-Picks s s backends 0 refl h)
          | inr e ↦
              rw e (or_last-Picks s _ backends _ refl h (λ b. pick_below-Has lt_int _ 0 backends))
        ])

    random-Picks : (ticks : ℕ) → ticks < 2 ^ 63 → Picks s backends (random_select ticks s backends)
    unfolding random_select
    random-Picks ticks t = rw (not_empty (length backends) h) (
        chosen-Picks s s backends (rem_int ticks (length backends)) refl
          (rem_int-lt ticks (length backends) t h))

    ip_hash-Picks :
        (md5 : String → List ℕ) (ip : String) → Picks s backends (ip_hash_select md5 s backends ip)
    unfolding ip_hash_select
    ip_hash-Picks md5 ip =
        rw (not_empty (length backends) h) (elim (Bool-cases (total_weight 0 backends == 0)) [
          | inl e ↦ rw e (chosen-Picks s s backends _ refl (mod-lt _ h))
          | inr e ↦
              rw e (or_last-Picks s s backends _ refl h (λ b. pick_below-Has ltb _ 0 backends))
        ])

  keep_least-Picks :
      (s : Balancer F) (backends : List (Backend F)) (less : Backend F → Backend F → Bool)
      → 0 < length backends
      → Picks s backends (done (keep_least less none backends, s))
  unfolding keep_least
  keep_least-Picks s [] less h = elim h [ ]
  keep_least-Picks s (b ∷ bs) less h =
      let (x, e, m) = keep_least-Has less b bs in (x, s, ap (λ o. done (o, s)) e, m, refl)

  -- What a caller is promised: nil and no change if no backend is healthy, and otherwise a healthy
  -- backend of the balancer, whose backends stay as they are.
  abbrev pub Serves : Balancer F → Selection F → Type 0
  Serves s m =
      (((x : Backend F) → Has x s.backends → x.healthy ≡ false) × (m ≡ done (none, s)))
      ⊎ ((b : Backend F) × (s' : Balancer F) × (m ≡ done (some b, s'))
          × Has b s.backends
          × (b.healthy ≡ true)
          × (s'.backends ≡ s.backends))

  Serves-Picks :
      (s : Balancer F) (m : Selection F) → Picks s (get_healthy s.backends) m → Serves s m
  unfolding get_healthy
  Serves-Picks s m (b, s', e, h, k) =
      let (inside, up) = Has-keep (λ x. x.healthy) s.backends h in inr (b, s', e, inside, up, k)

  no_healthy :
      (s : Balancer F)
      → length (get_healthy s.backends) ≡ 0
      → (x : Backend F) → Has x s.backends
      → x.healthy ≡ false
  unfolding get_healthy
  no_healthy s e x h = keep_none (λ y. y.healthy) s.backends e h

  module _ (s : Balancer F) (m : List (Backend F) → Selection F) where
    -- The test for an empty list of healthy backends, before any selection.
    guarded-Serves :
        (0 < length (get_healthy s.backends)
          → Picks s (get_healthy s.backends) (m (get_healthy s.backends)))
        → Serves s (
            if length (get_healthy s.backends) == 0
            then done (none, s)
            else m (get_healthy s.backends))
    guarded-Serves f = elim (Bool-cases (length (get_healthy s.backends) == 0)) [
      | inl e ↦ rw e (inl (no_healthy s ((==_iff _ 0).0 e), refl))
      | inr e ↦ rw e (Serves-Picks s _ (f (ground arith)))
    ]

module _ {F : Type 0} ⦃fl : Float64 F⦄ where
  select-Picks :
      (a : Algorithm) (ticks : ℕ) (s : Balancer F) (backends : List (Backend F))
      → s.current < 2 ^ 63
      → ticks < 2 ^ 63
      → 0 < length backends
      → Picks s backends (select a ticks s backends)
  unfolding select
  select-Picks weighted_round_robin ticks s bs c t h = weighted-Picks s bs h
  select-Picks least_connections ticks s bs c t h = keep_least-Picks s bs fewer_conns h
  select-Picks least_latency ticks s bs c t h = keep_least-Picks s bs lower_latency h
  select-Picks random ticks s bs c t h = random-Picks s bs h ticks t
  select-Picks _ ticks s bs c t h = round_robin-Picks s bs h c

  -- While the call counter and the clock are not negative, `Next` and `NextWithIP` never panic:
  -- under every algorithm they return nil exactly when no backend is healthy, and otherwise a
  -- healthy backend of the balancer, and they leave the list of backends as it is.
  pub next-Serves :
      (md5 : String → List ℕ) (client_ip : String) (ticks : ℕ) (s : Balancer F)
      → s.current < 2 ^ 63
      → ticks < 2 ^ 63
      → Serves s (next ticks s) × Serves s (next_with_ip md5 client_ip ticks s)
  unfolding next next_with_ip
  next-Serves md5 client_ip ticks s c t = (
    guarded-Serves s (select s.algorithm ticks s) (select-Picks s.algorithm ticks s _ c t),
    guarded-Serves s
        (λ healthy.
          if is_ip_hash s.algorithm
          then ip_hash_select md5 s healthy client_ip
          else select s.algorithm ticks s healthy)
        (λ h. elim (Bool-cases (is_ip_hash s.algorithm)) [
          | inl e ↦ rw e (ip_hash-Picks s _ h md5 client_ip)
          | inr e ↦ rw e (select-Picks s.algorithm ticks s _ c t h)
        ]),
  )
