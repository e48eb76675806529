-- ===== src/Ratelimit/Waiting.antt =====
-- The turns of `Wait` of internal/ratelimit/ratelimit.go.
use nyxora.Common.{
  ℕ, ◌<◌, ◌≤◌, ◌≡◌, refl, ap, Bool, true, false, inl, inr, ◌⊎◌, some, List, [], ◌∷◌, arith,
  Bool-cases, ltb, Has, Has-split,
}
use nyxora.Common.Float.{Float64}
use nyxora.Common.Words.{add_duration}
use nyxora.Ratelimit.{TokenBucket, allow, wait, wait_until}

module _ {F : Type 0} ⦃fl : Float64 F⦄ (elapsed : ℕ → ℕ → F) where
  -- The turns of a wait up to the one that ends it, and the result of that one.
  pub data Tries (n : F) (deadline : ℕ)
      : List (ℕ × ℕ) → TokenBucket F → TokenBucket F × Bool → Type 0 where
    granted :
        {t : ℕ × ℕ} {ts : List (ℕ × ℕ)} {tb : TokenBucket F}
        → (allow elapsed n t.0 tb).1 ≡ true
        → Tries n deadline (t ∷ ts) tb ((allow elapsed n t.0 tb).0, true)
    timed_out :
        {t : ℕ × ℕ} {ts : List (ℕ × ℕ)} {tb : TokenBucket F}
        → (allow elapsed n t.0 tb).1 ≡ false
        → deadline < t.1
        → Tries n deadline (t ∷ ts) tb ((allow elapsed n t.0 tb).0, false)
    again :
        {t : ℕ × ℕ} {ts : List (ℕ × ℕ)} {tb : TokenBucket F} {out : TokenBucket F × Bool}
        → (allow elapsed n t.0 tb).1 ≡ false
        → t.1 ≤ deadline
        → Tries n deadline ts (allow elapsed n t.0 tb).0 out
        → Tries n deadline (t ∷ ts) tb out

  -- The result of the loop, when a turn finds the deadline passed.
  wait_until_lem :
      (n : F) (deadline : ℕ) (ts : List (ℕ × ℕ)) (tb : TokenBucket F) {t : ℕ × ℕ}
      → Has t ts
      → deadline < t.1
      → (out : TokenBucket F × Bool) × (wait_until elapsed n deadline ts tb ≡ some out)
        × Tries n deadline ts tb out
  unfolding wait_until
  wait_until_lem n deadline [] tb h late = elim h [ ]
  wait_until_lem n deadline (u ∷ ts) tb {t} h late = elim (Bool-cases (allow elapsed n u.0 tb).1) [
    | inl e ↦ (((allow elapsed n u.0 tb).0, true), rw e refl, granted e)
    | inr e ↦ elim (Bool-cases (ltb deadline u.1)) [
      | inl l ↦ (((allow elapsed n u.0 tb).0, false), rw (e, l) refl, timed_out e (ground arith))
      | inr l ↦
          let (out, ended, run) =
            wait_until_lem n deadline ts (allow elapsed n u.0 tb).0 (later l (Has-split h)) late in
          (out, rw (e, l) ended, again e (ground arith) run)
    ]
  ]
    where
      later : ltb deadline u.1 ≡ false → (t ≡ u) ⊎ Has t ts → Has t ts
      later l (inl same) = absurd (ground (arith, l, late, ap (λ x. x.1) same))
      later l (inr i) = i

  -- Wait ends as soon as one of its turns reads a time after the deadline, and its result is that
  -- of the first turn that is granted its tokens or, refused, finds the deadline passed: every turn
  -- before that one was refused and did not find the deadline passed, and each turn found the
  -- bucket as the one before had left it. A timeout below zero puts the deadline before the start.
  pub wait_lem :
      (n : F) (timeout start : ℕ) (turns : List (ℕ × ℕ)) (tb : TokenBucket F) {t : ℕ × ℕ}
      → Has t turns
      → add_duration start timeout < t.1
      → (out : TokenBucket F × Bool) × (wait elapsed n timeout start turns tb ≡ some out)
        × Tries n (add_duration start timeout) turns tb out
  unfolding wait
  wait_lem n timeout start turns tb h late =
      wait_until_lem n (add_duration start timeout) turns tb h late
