-- ===== src/BodySched/Samples.antt =====
-- The residency histogram: upsgi_body_sched_refresh_samples and upsgi_body_sched_record_residency.
use upsgi.Common.{ℕ, ◌/◌, ◌&&◌, List, [], ◌∷◌, ltb, leb, ◌==◌, if◌then◌else◌, add64, mul64}
use upsgi.BodySched.Types.{Core, bucket_limits}

-- the first loop of refresh_samples: `total += hist[i]`
unfoldable pub hist_total : ℕ → List ℕ → ℕ
hist_total total [] = total
hist_total total (h ∷ hist) = hist_total (add64 total h) hist

-- The second loop, over the limits and the counts side by side. A percentile that is still 0 has not
-- been found; the loop breaks once p95 is set.
unfoldable pub find_percentiles : ℕ → ℕ → ℕ → ℕ → ℕ → List ℕ → List ℕ → ℕ × ℕ
find_percentiles target50 target95 seen p50 p95 (l ∷ limits) (h ∷ hist) =
    let seen' = add64 seen h in
    let p50' = if p50 == 0 && leb target50 seen' then l else p50 in
    let rest = find_percentiles target50 target95 seen' p50' p95 limits hist in
    if p95 == 0 && leb target95 seen' then (p50', l) else rest
find_percentiles target50 target95 seen p50 p95 _ _ = (p50, p95)

unfoldable pub target50 : ℕ → ℕ
target50 total = add64 total 1 / 2

unfoldable pub target95 : ℕ → ℕ
target95 total = let t = add64 (mul64 total 95) 99 / 100 in if t == 0 then 1 else t

unfoldable pub refresh_samples : Core → Core
refresh_samples uc =
    let total = hist_total 0 uc.residency_hist in
    let (p50, p95) =
      find_percentiles (target50 total) (target95 total) 0 0 0 bucket_limits uc.residency_hist in
    if total == 0
    then record uc { residency_us_p50_sample = 0; residency_us_p95_sample = 0 }
    else record uc { residency_us_p50_sample = p50; residency_us_p95_sample = p95 }

-- the loop of record_residency: count in the first bucket whose limit is not below
unfoldable pub count_residency : ℕ → List ℕ → List ℕ → List ℕ
count_residency residency_us (l ∷ limits) (h ∷ hist) =
    if leb residency_us l then add64 h 1 ∷ hist else h ∷ count_residency residency_us limits hist
count_residency residency_us _ hist = hist

unfoldable pub record_residency : Core → ℕ → Core
record_residency uc residency_us = refresh_samples (record uc {
  residency_us_max =
      if ltb uc.residency_us_max residency_us then residency_us else uc.residency_us_max;
  residency_hist = count_residency residency_us bucket_limits uc.residency_hist;
})
