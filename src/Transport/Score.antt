-- ===== src/Transport/Score.antt =====
-- What the score of internal/transport/scoring.go says about a transport.
use nyxora.Common.{◌≡◌, Bool, false, ◌&&◌, inl, inr, if◌then◌else◌, arith, Bool-cases}
use nyxora.Common.Float.{Float64, IsOrdered, IsMonotone, float_zero, fmax, fmin, ◌≼◌}
use nyxora.Transport.Manager.{Metrics}
use nyxora.Transport.Scoring.{ScoringWeights, points, weigh, compute_score, update_stability}

module _ {F : Type 0} ⦃fl : Float64 F⦄ (ordered : IsOrdered F) where
  open ordered use {lt_not_le, le_trans, le_total}

  ≼_refl : (x : F) → x ≼ x
  ≼_refl x = ground (arith, le_total x x)

  pub fmax-least : (x y z : F) → x ≼ z → y ≼ z → fmax x y ≼ z
  fmax-least x y z h k = ground arith

  fmax-left : (x y : F) → x ≼ fmax x y
  fmax-left x y = ground (arith, lt_not_le x y, le_total x y, ≼_refl x)

  fmax-right : (x y : F) → y ≼ fmax x y
  fmax-right x y = ground (arith, lt_not_le x y, le_total x y, ≼_refl y)

  fmax_mono : (a x y : F) → x ≼ y → fmax a x ≼ fmax a y
  fmax_mono a x y h =
      fmax-least a x (fmax a y) (fmax-left a y) (le_trans x y (fmax a y) h (fmax-right a y))

  fmin-left : (x y : F) → fmin x y ≼ x
  fmin-left x y = ground (arith, lt_not_le y x, le_total x y, ≼_refl x)

  module _ (mono : IsMonotone F) where
    open mono use {
      add_mono, sub_mono, mul_mono, div_mono, add_zero, zero_mul, int_positive, sub_zero,
    }

    -- Metrics that are no worse in any of the figures that count.
    pub record IsBetter (m better : Metrics F) : Type 0 where
      pub latency : better.latency_ms ≼ m.latency_ms
      pub loss : better.packet_loss ≼ m.packet_loss
      pub jitter : better.jitter_ms ≼ m.jitter_ms
      pub stability : m.stability ≼ better.stability

    pub record IsWeighting (w : ScoringWeights F) : Type 0 where
      pub latency : float_zero ≼ w.latency
      pub loss : float_zero ≼ w.loss
      pub jitter : float_zero ≼ w.jitter
      pub stability : float_zero ≼ w.stability

    add_positive : (x y : F) → float_zero ≼ x → float_zero ≼ y → float_zero ≼ fl.add x y
    add_positive x y h k =
        le_trans _ _ _ (add_zero float_zero) (add_mono float_zero x float_zero y h k)

    mul_positive : (x y : F) → float_zero ≼ x → float_zero ≼ y → float_zero ≼ fl.mul x y
    mul_positive x y h k = le_trans _ _ _ (zero_mul y) (mul_mono float_zero x y k h)

    points_positive : (x : F) → float_zero ≼ points x
    points_positive x = fmax-left float_zero _

    points_antitone : (x y : F) → x ≼ y → points y ≼ points x
    points_antitone x y h = fmax_mono float_zero _ _ (sub_mono _ _ y x (≼_refl (fl.of_int 100)) h)

    weigh_positive :
        (m : Metrics F) (w : ScoringWeights F)
        → IsWeighting w
        → float_zero ≼ m.stability
        → float_zero ≼ weigh m w
    unfolding weigh
    weigh_positive m w v s =
        add_positive _ _
          (add_positive _ _
            (add_positive _ _ (mul_positive _ _ (points_positive _) v.latency)
              (mul_positive _ _ (points_positive _) v.loss))
            (mul_positive _ _ (points_positive _) v.jitter))
          (mul_positive _ _ (mul_positive _ _ s (int_positive 100)) v.stability)

    weigh_mono :
        (m better : Metrics F) (w : ScoringWeights F)
        → IsWeighting w
        → IsBetter m better
        → weigh m w ≼ weigh better w
    unfolding weigh
    weigh_mono m better w v b =
        add_mono _ _ _ _
          (add_mono _ _ _ _
            (add_mono _ _ _ _
              (mul_mono _ _ _ v.latency
                (points_antitone _ _ (div_mono _ _ _ (int_positive 2) b.latency)))
              (mul_mono _ _ _ v.loss
                (points_antitone _ _ (mul_mono _ _ _ (int_positive 2) b.loss))))
            (mul_mono _ _ _ v.jitter
              (points_antitone _ _ (mul_mono _ _ _ (int_positive 3) b.jitter))))
          (mul_mono _ _ _ v.stability (mul_mono _ _ _ (int_positive 100) b.stability))

    -- A transport that is no worse in latency, loss, jitter and stability has no lower score, with
    -- weights and a stability that are not negative, as long as its latency is positive, no value
    -- is NaN and arithmetic is monotone.
    pub compute_score_mono :
        (m better : Metrics F) (w : ScoringWeights F)
        → IsWeighting w
        → IsBetter m better
        → float_zero ≼ m.stability
        → fl.le better.latency_ms float_zero ≡ false
        → compute_score m w ≼ compute_score better w
    unfolding compute_score
    compute_score_mono m better w v b s p =
        let slow : fl.le m.latency_ms float_zero ≡ false =
          ground (arith, le_trans better.latency_ms m.latency_ms float_zero, b.latency) in
        let fine : float_zero ≼ weigh better w =
          weigh_positive better w v (le_trans _ _ _ s b.stability) in
        let low : fl.lt (fl.of_int 50) m.packet_loss ≡ false
            → fl.lt (fl.of_int 50) better.packet_loss ≡ false =
          λ h. ground (
            arith,
            h,
            lt_not_le (fl.of_int 50) m.packet_loss,
            lt_not_le (fl.of_int 50) better.packet_loss,
            le_trans better.packet_loss m.packet_loss (fl.of_int 50),
            b.loss,
          ) in
        ground (arith, slow, p, fine, low, weigh_mono m better w v b, ≼_refl float_zero)

    abbrev pub IsStability : F → Type 0
    IsStability x = (float_zero ≼ x) × (x ≼ fl.of_int 1)

    sub-le : (x y : F) → float_zero ≼ y → fl.sub x y ≼ x
    sub-le x y h = le_trans _ _ _ (sub_mono x x y float_zero (≼_refl x) h) (sub_zero x)

    le-add : (x y : F) → float_zero ≼ y → x ≼ fl.add x y
    le-add x y h = le_trans _ _ _ (add_zero x) (add_mono x x float_zero y (≼_refl x) h)

    abbrev pub is_good : F → F → Metrics F → Bool
    is_good good bad m = fl.lt m.packet_loss good && fl.lt m.latency_ms bad

    raised :
        (x up : F)
        → float_zero ≼ up
        → IsStability x
        → IsStability (fmin (fl.of_int 1) (fl.add x up)) × (x ≼ fmin (fl.of_int 1) (fl.add x up))
    raised x up u s =
        let more : x ≼ fl.add x up = le-add x up u in
        let kept : x ≼ fmin (fl.of_int 1) (fl.add x up) = ground (arith, more, s.1) in
        ((le_trans _ _ _ s.0 kept, fmin-left _ _), kept)

    lowered :
        (x down : F)
        → float_zero ≼ down
        → IsStability x
        → IsStability (fmax float_zero (fl.sub x down)) × (fmax float_zero (fl.sub x down) ≼ x)
    lowered x down d s =
        let less : fmax float_zero (fl.sub x down) ≼ x = fmax-least _ _ x s.0 (sub-le x down d) in
        ((fmax-left _ _, le_trans _ _ _ less s.1), less)

    -- For rates that are not negative, away from NaN and with monotone arithmetic, UpdateStability
    -- keeps the stability between 0 and 1; after a measurement below both thresholds it is no lower
    -- than before, and after any other measurement no higher.
    pub update_stability_lem :
        (good bad up down : F) (m : Metrics F)
        → float_zero ≼ up
        → float_zero ≼ down
        → IsStability m.stability
        → IsStability (update_stability good bad up down m).stability
          × (if is_good good bad m
              then m.stability ≼ (update_stability good bad up down m).stability
              else (update_stability good bad up down m).stability ≼ m.stability)
    unfolding update_stability
    update_stability_lem good bad up down m u d s = elim (Bool-cases (is_good good bad m)) [
      | inl e ↦ rw e (raised m.stability up u s)
      | inr e ↦ rw e (lowered m.stability down d s)
    ]
