-- ===== src/Ratelimit/Limits.antt =====
-- The limiter of internal/ratelimit/ratelimit.go: a bucket for each key.
use nyxora.Common.{
  ℕ, ◌≤◌, ◌≡◌, ◌≢◌, ◌↔◌, refl, sym, ap, ◌∙◌, Bool, true, inl, inr, String, Option, none, some, List,
  if◌then◌else◌, arith, Bool-cases, eq_iff,
}
use mathlib.Core.Path.{subst}
use nyxora.Common.Float.{Float64, IsOrdered, IsMonotone, float_zero, ◌≼◌}
use nyxora.Common.Assoc.{get, put, get-put}
use nyxora.Ratelimit.{
  TokenBucket, Limiter, new_token_bucket, ensure, get_bucket, refill, allow, allow_key,
}
use nyxora.Ratelimit.Bounded.{IsClock, IsBounded, allow_lem, refill-IsBounded}

module _ {F : Type 0} where
  ensure-config :
      (o : Option (TokenBucket F)) (key : String) (now : ℕ) (l : Limiter F)
      → (ensure o key now l).0.config ≡ l.config
  ensure-config none key now l = refl
  ensure-config (some tb) key now l = refl

  ensure-other :
      (o : Option (TokenBucket F)) (key other : String) (now : ℕ) (l : Limiter F)
      → key ≢ other
      → get (ensure o key now l).0.buckets other ≡ get l.buckets other
  ensure-other none key other now l ne = ground (
    arith,
    get-put l.buckets key (new_token_bucket l.config.max_tokens l.config.refill_rate now) other,
    eq_iff key other,
    ne,
  )
  ensure-other (some tb) key other now l ne = refl

module _ {F : Type 0} ⦃fl : Float64 F⦄ (elapsed : ℕ → ℕ → F) where
  -- A request for one key leaves the buckets of all other keys as they are.
  allow_key-other :
      (key other : String) (n : F) (opened now : ℕ) (l : Limiter F)
      → key ≢ other
      → get (allow_key elapsed key n opened now l).0.buckets other ≡ get l.buckets other
  unfolding allow_key get_bucket
  allow_key-other key other n opened now l ne = elim (Bool-cases l.config.enabled) [
    | inr off ↦ rw off refl
    | inl on ↦
        let found = ensure (get l.buckets key) key opened l in
        let kept = ensure-other (get l.buckets key) key other opened l ne in
        rw on (
          ground (
            arith,
            get-put found.0.buckets key (allow elapsed n now found.1).0 other,
            eq_iff key other,
            ne,
            kept,
          ))
  ]

  -- What a request leaves when limits are enabled.
  abbrev after : String → F → ℕ → ℕ → Limiter F → Limiter F × Bool
  after key n opened now l =
      let found = ensure (get l.buckets key) key opened l in
      let tried = allow elapsed n now found.1 in
      (record found.0 { buckets = put found.0.buckets key tried.0 }, tried.1)

  allow_key-enabled :
      (key : String) (n : F) (opened now : ℕ) (l : Limiter F)
      → l.config.enabled ≡ true
      → allow_key elapsed key n opened now l ≡ after key n opened now l
  unfolding allow_key get_bucket
  allow_key-enabled key n opened now l on =
      ap (λ b. if b then after key n opened now l else (l, true)) on

  get-put_same :
      (m : List (String × TokenBucket F)) (key : String) (tb : TokenBucket F)
      → get (put m key tb) key ≡ some tb
  get-put_same m key tb =
      get-put m key tb key ∙ ap (λ b. if b then some tb else get m key) ((eq_iff key key).1 refl)

  -- With limits enabled a request is answered by the bucket that GetBucket finds or opens for the
  -- key, and that bucket, as the request left it, is the key's bucket afterwards, also when the
  -- request is refused; the configuration stays.
  get-allow_key :
      (key : String) (n : F) (opened now : ℕ) (l : Limiter F)
      → l.config.enabled ≡ true
      → (get (allow_key elapsed key n opened now l).0.buckets key
          ≡ some (allow elapsed n now (get_bucket key opened l).1).0)
        × ((allow_key elapsed key n opened now l).1
            ≡ (allow elapsed n now (get_bucket key opened l).1).1)
        × ((allow_key elapsed key n opened now l).0.config ≡ l.config)
  unfolding get_bucket
  get-allow_key key n opened now l on =
      let e = allow_key-enabled key n opened now l on in
      let found = ensure (get l.buckets key) key opened l in
      (
        ap (λ out. get out.0.buckets key) e
            ∙ get-put_same found.0.buckets key (allow elapsed n now found.1).0,
        ap (λ out. out.1) e,
        ap (λ out. out.0.config) e ∙ ensure-config (get l.buckets key) key opened l,
      )

  module _ (ordered : IsOrdered F) (mono : IsMonotone F) (clock : IsClock elapsed) where
    open ordered use {le_trans, le_total}

    max_tokens-refill :
        (now : ℕ) (tb : TokenBucket F) → (refill elapsed now tb).max_tokens ≡ tb.max_tokens
    unfolding refill
    max_tokens-refill now tb = refl

    full-allow :
        (most rate n : F) (opened now : ℕ)
        → opened ≤ now
        → float_zero ≼ most
        → float_zero ≼ rate
        → ((allow elapsed n now (new_token_bucket most rate opened)).1 ≡ true) ↔ (n ≼ most)
    unfolding allow new_token_bucket
    full-allow most rate n opened now h p r =
        let full : IsBounded (new_token_bucket most rate opened) = record {
          no_debt = p;
          no_more = ground (arith, le_total most most);
          rate = r;
        } in
        let tb = refill elapsed now (new_token_bucket most rate opened) in
        let kept =
          (refill-IsBounded ordered mono elapsed clock now (new_token_bucket most rate opened) h
            full).0 in
        (
          λ granted. le_trans n tb.tokens most (ground (arith, granted)) (
              subst (λ z. tb.tokens ≼ z) (max_tokens-refill now (new_token_bucket most rate opened))
                kept.no_more),
          λ q.
              (allow_lem ordered mono elapsed clock n n now (new_token_bucket most rate opened) h
                  full).0
                q,
        )

    -- With limits enabled the first request for a key is granted exactly if it asks for no more
    -- than the maximum of the configuration: a new bucket is full. The maximum and the rate are not
    -- negative, the clock does not go back, no value is NaN and arithmetic is monotone.
    fresh_key_iff :
        (key : String) (n : F) (opened now : ℕ) (l : Limiter F)
        → l.config.enabled ≡ true
        → get l.buckets key ≡ none
        → opened ≤ now
        → float_zero ≼ l.config.max_tokens
        → float_zero ≼ l.config.refill_rate
        → ((allow_key elapsed key n opened now l).1 ≡ true) ↔ (n ≼ l.config.max_tokens)
    unfolding get_bucket
    fresh_key_iff key n opened now l on absent h p r =
        let same : (allow_key elapsed key n opened now l).1
            ≡ (allow elapsed n now
                (new_token_bucket l.config.max_tokens l.config.refill_rate opened)).1 =
          (get-allow_key key n opened now l on).1
          ∙ ap (λ o. (allow elapsed n now (ensure o key opened l).1).1) absent in
        let fresh = full-allow l.config.max_tokens l.config.refill_rate n opened now h p r in
        (λ e. fresh.0 (sym same ∙ e), λ q. same ∙ fresh.1 q)
