-- ===== src/Balancer/Affinity.antt =====
-- IP hash: a client goes to the backend that its hash points at.
use native.Mathlib.Nat.{mod-lt, zero-add}
use nyxora.Common.{
  ℕ, ◌%◌, ◌^◌, ◌<◌, ◌≡◌, refl, ap, ◌∙◌, List, some, arith, String, ltb, length, take, get_elem?,
  get_elem?-lt, done,
}
use nyxora.Common.Float.{Float64}
use nyxora.Balancer.{
  ip_hash, Backend, Balancer, get_healthy, big_endian, pick_below, ip_hash_select, is_ip_hash,
  next_with_ip,
}
use nyxora.Balancer.Pick.{
  weight_sum, expand, length-expand, total_weight-eq-weight_sum, pick_below-expand,
}
use nyxora.Balancer.Select.{not_empty}
use nyxora.Balancer.Rotation.{not_empty_list}

module _ {F : Type 0} where
  ip_hash_lem :
      (md5 : String → List ℕ) (ip : String) (s : Balancer F) (bs : List (Backend F))
      → 0 < weight_sum bs
      → weight_sum bs < 2 ^ 63
      → (b : Backend F) × (get_elem? (expand bs) (big_endian 0 (take 8 (md5 ip)) % weight_sum bs)
          ≡ some b)
        × (ip_hash_select md5 s bs ip ≡ done (some b, s))
  unfolding ip_hash_select
  ip_hash_lem md5 ip s bs h w =
      let target = big_endian 0 (take 8 (md5 ip)) % weight_sum bs in
      let low : target < weight_sum bs = mod-lt _ h in
      let (b, at) = get_elem?-lt (expand bs) target (omega (arith, length-expand bs)) in
      let found : pick_below ltb target 0 bs ≡ some b =
        pick_below-expand ltb (λ a c p q. refl) target 0 bs (omega arith) (omega arith)
          (omega arith)
        ∙ ap (get_elem? (expand bs)) (omega arith)
        ∙ at in
      (
        b,
        at,
        rw (
          total_weight-eq-weight_sum 0 bs (omega arith),
          zero-add,
          not_empty (length bs) (not_empty_list bs h),
          not_empty (weight_sum bs) h,
          found,
        ),
      )

module _ {F : Type 0} ⦃fl : Float64 F⦄ where
  -- Under IP hash, when the weights of the healthy backends add up to more than 0 and less than 2 ^
  -- 63, a client's backend is the one at the place hash % total of the healthy backends, each
  -- repeated as often as its weight says; it depends on the client and on these backends alone,
  -- whatever the clock, and the call changes nothing.
  pub next_with_ip_affinity :
      (md5 : String → List ℕ) (client_ip : String) (ticks : ℕ) (s : Balancer F)
      → s.algorithm ≡ ip_hash
      → 0 < weight_sum (get_healthy s.backends)
      → weight_sum (get_healthy s.backends) < 2 ^ 63
      → let healthy = get_healthy s.backends in
        (b : Backend F) × (get_elem?
            (expand healthy)
            (big_endian 0 (take 8 (md5 client_ip)) % weight_sum healthy)
          ≡ some b)
        × (next_with_ip md5 client_ip ticks s ≡ done (some b, s))
  unfolding next_with_ip
  next_with_ip_affinity md5 client_ip ticks s e h w =
      let (b, at, found) = ip_hash_lem md5 client_ip s (get_healthy s.backends) h w in
      (
        b,
        at,
        rw (not_empty (length (get_healthy s.backends)) (not_empty_list _ h), ap is_ip_hash e)
            found,
      )
