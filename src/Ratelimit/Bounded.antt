-- ===== src/Ratelimit/Bounded.antt =====
-- What the token buckets of internal/ratelimit/ratelimit.go hold.
use nyxora.Common.{ℕ, ◌≤◌, ◌≡◌, refl, sym, true, false, inl, inr, List, [], ◌∷◌, arith, Bool-cases}
use mathlib.Core.Path.{subst}
use nyxora.Common.Float.{Float64, IsOrdered, IsMonotone, float_zero, ◌≼◌}
use nyxora.Ratelimit.{TokenBucket, refill, take_tokens, allow}

-- What the buckets use of the clock: the time that went by is not negative when the readings do not
-- go back, as Go's monotonic clock promises.
pub record IsClock {F : Type 0} ⦃fl : Float64 F⦄ (elapsed : ℕ → ℕ → F) : Type 0 where
  pub forward : (last now : ℕ) → last ≤ now → float_zero ≼ elapsed last now

module _ {F : Type 0} ⦃fl : Float64 F⦄ where
  -- Between nothing and the maximum, and a rate that is not negative.
  pub record IsBounded (tb : TokenBucket F) : Type 0 where
    pub no_debt : float_zero ≼ tb.tokens
    pub no_more : tb.tokens ≼ tb.max_tokens
    pub rate : float_zero ≼ tb.refill_rate

module _ {F : Type 0} ⦃fl : Float64 F⦄ (ordered : IsOrdered F) (mono : IsMonotone F)
    (elapsed : ℕ → ℕ → F) (clock : IsClock elapsed) where
  open ordered use {lt_not_le, le_trans, le_total}
  open mono use {add_mono, sub_mono, mul_mono, add_zero, zero_mul, sub_zero, sub_self}

  gained :
      (x : F) (last now : ℕ) (rate : F)
      → last ≤ now
      → float_zero ≼ rate
      → x ≼ fl.add x (fl.mul (elapsed last now) rate)
  gained x last now rate h r = le_trans _ _ _ (add_zero x) (
      add_mono x x float_zero _ (ground (arith, le_total x x)) (
        le_trans _ _ _ (zero_mul rate)
          (mul_mono float_zero (elapsed last now) rate r (clock.forward last now h))))

  pub refill-IsBounded :
      (now : ℕ) (tb : TokenBucket F)
      → tb.last_refill ≤ now
      → IsBounded tb
      → IsBounded (refill elapsed now tb) × (tb.tokens ≼ (refill elapsed now tb).tokens)
  unfolding refill
  refill-IsBounded now tb h b =
      let more = fl.add tb.tokens (fl.mul (elapsed tb.last_refill now) tb.refill_rate) in
      let up = gained tb.tokens tb.last_refill now tb.refill_rate h b.rate in
      elim (Bool-cases (fl.lt tb.max_tokens more)) [
        | inl e ↦ rw e (
          record {
            no_debt = le_trans _ _ _ b.no_debt b.no_more;
            no_more = ground (arith, le_total tb.max_tokens tb.max_tokens);
            rate = b.rate;
          },
          b.no_more,
        )
        | inr e ↦ rw e (
          record {
            no_debt = le_trans _ _ _ b.no_debt up;
            no_more = ground (arith, e, lt_not_le tb.max_tokens more);
            rate = b.rate;
          },
          up,
        )
      ]

  take_tokens-IsBounded :
      (n : F) (tb : TokenBucket F) → float_zero ≼ n → IsBounded tb → IsBounded (take_tokens n tb).0
  take_tokens-IsBounded n tb p b = elim (Bool-cases (fl.le n tb.tokens)) [
    | inr e ↦ rw e b
    | inl e ↦ rw e (record {
      no_debt =
          le_trans _ _ _ (sub_self n) (sub_mono n tb.tokens n n e (ground (arith, le_total n n)));
      no_more = le_trans _ _ _ less b.no_more;
      rate = b.rate;
    })
  ]
    where
      less : fl.sub tb.tokens n ≼ tb.tokens
      less =
          le_trans _ _ _
            (sub_mono _ _ n float_zero (ground (arith, le_total tb.tokens tb.tokens)) p)
            (sub_zero tb.tokens)

  -- Requests one after the other: how many tokens, and when.
  abbrev pub allow_all : List (F × ℕ) → TokenBucket F → TokenBucket F
  allow_all [] tb = tb
  allow_all (r ∷ rs) tb = allow_all rs (allow elapsed r.0 r.1 tb).0

  -- No request is negative, and the readings of the clock do not go back.
  abbrev pub AreForward : ℕ → List (F × ℕ) → Type 0
  AreForward last [] = Unit
  AreForward last (r ∷ rs) = (float_zero ≼ r.0) × (last ≤ r.1) × AreForward r.1 rs

  last_refill-allow :
      (n : F) (now : ℕ) (tb : TokenBucket F) → (allow elapsed n now tb).0.last_refill ≡ now
  unfolding allow refill
  last_refill-allow n now tb = elim (Bool-cases (fl.le n (refill elapsed now tb).tokens)) [
    | inl e ↦ rw e refl
    | inr e ↦ rw e refl
  ]

  -- Whatever is requested, and however the requests end, a bucket with a refill rate that is not
  -- negative that holds between no tokens and its maximum does so after every run of requests that
  -- are not negative, made at times that do not go back and begin no earlier than its last refill,
  -- as long as no value is NaN, arithmetic is monotone, and the time between readings of the clock
  -- that do not go back is not negative.
  pub allow_all-IsBounded :
      (rs : List (F × ℕ)) (tb : TokenBucket F)
      → AreForward tb.last_refill rs
      → IsBounded tb
      → IsBounded (allow_all rs tb)
  unfolding allow
  allow_all-IsBounded [] tb f b = b
  allow_all-IsBounded (r ∷ rs) tb f b =
      let tried = (allow elapsed r.0 r.1 tb).0 in
      allow_all-IsBounded rs tried
        (subst (λ last. AreForward last rs) (sym (last_refill-allow r.0 r.1 tb)) f.2)
        (take_tokens-IsBounded r.0 (refill elapsed r.1 tb) f.0 (refill-IsBounded r.1 tb f.1 b).0)

  -- A request for no more tokens than the bucket holds, when the clock does not go back, is
  -- granted; and what is refused to a request is refused to every greater one at that moment.
  pub allow_lem :
      (n k : F) (now : ℕ) (tb : TokenBucket F)
      → tb.last_refill ≤ now
      → IsBounded tb
      → (n ≼ tb.tokens → (allow elapsed n now tb).1 ≡ true)
        × ((allow elapsed n now tb).1 ≡ false → n ≼ k → (allow elapsed k now tb).1 ≡ false)
  unfolding allow
  allow_lem n k now tb h b =
      let more = (refill-IsBounded now tb h b).1 in
      let t = (refill elapsed now tb).tokens in
      (
        λ p. ground (arith, le_trans n tb.tokens t p more),
        λ p q. ground (arith, p, le_trans n k t q),
      )
