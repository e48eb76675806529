-- ===== src/Multipath/Tests.antt =====
-- The theorems at a scheduler with three paths, and runs of the code on it.
use nyxora.Common.{
  ℕ, ◌≡◌, ◌⊎◌, ◌||◌, refl, Bool, true, false, none, some, [], ◌∷◌, arith, String, ◌==◌, Has, done,
  panic,
}
use nyxora.Common.Words.{add_int, mul_int, div_int, lt_int}
use nyxora.Common.Float.{nat_float}
use nyxora.Common.Sort.{sort_slice}
use nyxora.Common.Assoc.{values, update_all}
use nyxora.Multipath.State.{
  DistributionMode, weighted, lowest_latency, PathState, Scheduler, new_scheduler,
}
use nyxora.Multipath.Weights.{
  active_weight, recalculate, to_percent, count_scored, total_score, is_zero, reweigh,
  adjust_weights,
}
use nyxora.Multipath.Paths.{set_active, add_path}
use nyxora.Multipath.Pick.{select_mode, select_path}
use nyxora.Multipath.Normal.{IsNormal, adjust_weights-IsNormal}
use nyxora.Multipath.Choice.{is_default, select_path_cases}
use nyxora.Multipath.Total.{zero_weight_panics}

abbrev path : String → ℕ → ℕ → ℕ → Bool → PathState ℕ
path name score latency weight active = record {
  name = name;
  transport = "quic";
  score = score;
  latency = latency;
  loss = 1;
  weight = weight;
  active = active;
  bandwidth = 100;
}

abbrev wg : PathState ℕ
wg = path "wg" 90 40 30 true

abbrev ssh : PathState ℕ
ssh = path "ssh" 30 25 50 true

abbrev frp : PathState ℕ
frp = path "frp" 99 5 20 false

abbrev three : DistributionMode → Scheduler ℕ
three m = record (new_scheduler 7) {
  paths = ("wg", wg) ∷ ("ssh", ssh) ∷ ("frp", frp) ∷ [];
  total_weight = 80;
  mode = m;
}

adjusted : (adjust_weights (three weighted)).total_weight ≡ 100
unfolding adjust_weights recalculate to_percent reweigh update_all active_weight count_scored
    total_score add_int mul_int div_int lt_int
adjusted = refl

select_path_cases_example :
    (((p : PathState ℕ) → Has p (values (three weighted).paths) → p.active ≡ false)
      × (select_path 5 6 (three weighted) ≡ done none))
    ⊎ (((p : PathState ℕ) × (select_path 5 6 (three weighted) ≡ done (some p))
          × Has p (values (three weighted).paths)
          × (p.active ≡ true))
        ⊎ ((is_default weighted ≡ true)
            × (◌≡◌ {A = ℕ} 80 0)
            × (select_path 5 6 (three weighted) ≡ panic)))
select_path_cases_example = select_path_cases 5 6 (three weighted) (omega arith)

fastest : select_path 5 6 (three lowest_latency) ≡ done (some ssh)
unfolding select_path select_mode sort_slice
fastest = refl

adjust_weights-IsNormal_example :
    let idle =
      count_scored 0 (values (three weighted).paths) == 0
      || is_zero (total_score 0 (values (three weighted).paths)) in
    ((idle ≡ true) × (adjust_weights (three weighted) ≡ three weighted))
    ⊎ ((idle ≡ false) × IsNormal (adjust_weights (three weighted)))
adjust_weights-IsNormal_example = adjust_weights-IsNormal (three weighted) (omega arith)

zero_weight_panics_example :
    select_path 5 6 (set_active "tcp" true (add_path {F = ℕ} "tcp" "tcp" 0 (new_scheduler 7)))
    ≡ panic
unfolding new_scheduler
zero_weight_panics_example = zero_weight_panics "tcp" "tcp" 5 6 (new_scheduler 7) refl tt
