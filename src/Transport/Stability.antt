-- ===== src/Transport/Stability.antt =====
-- The life of a transport of internal/transport/base.go: its stability, and how it ends.
use nyxora.Common.{
  ◌≡◌, refl, true, false, String, List, [], ◌∷◌, if◌then◌else◌, Bool-cases, inl, inr,
}
use nyxora.Common.Float.{Float64, IsOrdered, IsMonotone, float_zero, ◌≼◌}
use nyxora.Transport.Manager.{failed, testing}
use nyxora.Transport.Scoring.{Measured}
use nyxora.Transport.Score.{IsStability, update_stability_lem}
use nyxora.Transport.Base.{
  BaseTransport, base_health, cancel_context, run_in_background, base_update_metrics,
  base_update_stability, base_score, base_connect_init,
}

module _ {F : Type 0} ⦃fl : Float64 F⦄ where
  -- A call of BaseScore for each measurement, one after the other.
  abbrev pub scored : List (Measured F) → BaseTransport F → BaseTransport F
  scored [] b = b
  scored (x ∷ xs) b = scored xs (base_score x b).0

  -- However often BaseScore runs and whatever it measures, the stability that started between 0
  -- and 1 stays there, as long as the two rates are not negative, no value is NaN and arithmetic is
  -- monotone.
  scored-IsStability :
      (ordered : IsOrdered F) (mono : IsMonotone F) (xs : List (Measured F)) (b : BaseTransport F)
      → float_zero ≼ fl.ratio 5 100
      → float_zero ≼ fl.ratio 10 100
      → IsStability ordered mono b.metrics.stability
      → IsStability ordered mono (scored xs b).metrics.stability
  unfolding base_score base_update_stability base_update_metrics
  scored-IsStability ordered mono [] b u d s = s
  scored-IsStability ordered mono (x ∷ xs) b u d s =
      scored-IsStability ordered mono xs (base_score x b).0 u d
        (update_stability_lem ordered mono (fl.of_int 10) (fl.of_int 200) (fl.ratio 5 100)
          (fl.ratio 10 100) (base_update_metrics x b).metrics u d s).0

  -- BaseConnectInit ends in an error exactly when more than 80 % of the pings are lost; the
  -- transport is then failed, and otherwise testing, never healthy; and in both cases nothing
  -- runs in its background before CancelContext has made a new context.
  base_connect_init_lem :
      (addr : String) (x : Measured F) (b : BaseTransport F)
      → ((base_connect_init addr x b).1
          ≡ (if fl.lt (fl.of_int 80) x.packet_loss then false else true))
        × ((base_connect_init addr x b).0.status
            ≡ (if (base_connect_init addr x b).1 then testing else failed))
        × (base_health (base_connect_init addr x b).0 ≡ false)
        × (run_in_background (base_connect_init addr x b).0 ≡ false)
        × (run_in_background (cancel_context (base_connect_init addr x b).0) ≡ true)
  unfolding base_connect_init run_in_background cancel_context
  base_connect_init_lem addr x b = elim (Bool-cases (fl.lt (fl.of_int 80) x.packet_loss)) [
    | inl e ↦ rw e (refl, refl, refl, refl, refl)
    | inr e ↦ rw e (refl, refl, refl, refl, refl)
  ]
