-- ===== src/Balancer/Minimum.antt =====
-- Least connections and least latency: `Next` returns a minimum.
use nyxora.Common.{
  ℕ, ◌≡◌, inl, inr, true, false, Option, none, some, arith, ◌==◌, Bool-cases, length, Has, keep-Has,
  done,
}
use mathlib.Core.Path.{subst}
use nyxora.Common.Best.{keep_least_minimum}
use nyxora.Common.Words.{lt_int}
use nyxora.Common.Float.{Float64, IsOrdered}
use nyxora.Common.Sort.{IsStrictWeak, ascending-IsStrictWeak}
use nyxora.Balancer.{
  Algorithm, least_connections, least_latency, Backend, Balancer, Selection, get_healthy,
  fewer_conns, lower_latency, select, next,
}

fewer_conns-IsStrictWeak : {F : Type 0} → IsStrictWeak (fewer_conns {F = F})
unfolding lt_int
fewer_conns-IsStrictWeak = record {
  asymm = λ x y. ground arith;
  not_less_trans = λ x y z. ground arith;
}

module _ {F : Type 0} where
  some_of :
      {o p : Option (Backend F)} {s t : Balancer F}
      → ◌≡◌ {A = Selection F} (done (o, s)) (done (p, t))
      → o ≡ p
  some_of e = ground arith

module _ {F : Type 0} ⦃fl : Float64 F⦄ (s : Balancer F) (ticks : ℕ) {b : Backend F}
    {s' : Balancer F} where
  next-select :
      (a : Algorithm)
      → s.algorithm ≡ a
      → next ticks s ≡ done (some b, s')
      → select a ticks s (get_healthy s.backends) ≡ done (some b, s')
  unfolding next
  next-select a e h = elim (Bool-cases (length (get_healthy s.backends) == 0)) [
    | inl empty ↦ absurd (nothing (rw empty at h))
    | inr up ↦
        subst (λ z. select z ticks s (get_healthy s.backends) ≡ done (some b, s')) e (rw up at h)
  ]
    where
      nothing : ◌≡◌ {A = Selection F} (done (none, s)) (done (some b, s')) → ⊥
      nothing p = ground arith

  module _ (h : next ticks s ≡ done (some b, s')) (x : Backend F) (inside : Has x s.backends)
      (up : x.healthy ≡ true) where
    -- Under least connections, no healthy backend has fewer active connections than the one that
    -- `Next` returns.
    next_least_connections :
        s.algorithm ≡ least_connections → lt_int x.active_conns b.active_conns ≡ false
    unfolding get_healthy select
    next_least_connections e =
        keep_least_minimum fewer_conns fewer_conns-IsStrictWeak (get_healthy s.backends)
          (some_of (next-select least_connections e h))
          (keep-Has (λ y. y.healthy) s.backends up inside)

    -- Under least latency, no healthy backend has a lower latency than the one that `Next`
    -- returns, as long as no latency is NaN.
    next_least_latency :
        (ordered : IsOrdered F) → s.algorithm ≡ least_latency → fl.lt x.latency b.latency ≡ false
    unfolding get_healthy select
    next_least_latency ordered e =
        keep_least_minimum lower_latency (ascending-IsStrictWeak (λ y. y.latency) ordered)
          (get_healthy s.backends) (some_of (next-select least_latency e h))
          (keep-Has (λ y. y.healthy) s.backends up inside)
