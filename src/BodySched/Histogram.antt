-- ===== src/BodySched/Histogram.antt =====
-- The residency histogram counts every finished request once, and the samples are percentiles.
use upsgi.Common.{
  ℕ, ◌+◌, ◌*◌, ◌/◌, ◌^◌, ◌≤◌, ◌<◌, ◌≡◌, refl, ◌∙◌, List, [], ◌∷◌, arith, leb, ltb, if◌then◌else◌,
  add64, length,
}
use upsgi.BodySched.Types.{Core, bucket_limits}
use upsgi.BodySched.Samples.{
  hist_total, find_percentiles, target50, target95, refresh_samples, count_residency,
  record_residency,
}

abbrev pub sum : List ℕ → ℕ
sum [] = 0
sum (x ∷ xs) = x + sum xs

-- some limit is not below the value
abbrev Covers : List ℕ → ℕ → Type 0
Covers [] us = ⊥
Covers (l ∷ limits) us = if leb us l then Unit {0} else Covers limits us

count_residency-sum :
    (us : ℕ) (limits hist : List ℕ)
    → length hist ≡ length limits
    → Covers limits us
    → sum hist + 1 < 2 ^ 64
    → sum (count_residency us limits hist) ≡ sum hist + 1
unfolding count_residency
count_residency-sum us [] hist e c w = absurd c
count_residency-sum us (l ∷ limits) [] e c w = absurd (omega arith)
count_residency-sum us (l ∷ limits) (h ∷ hist) e c w =
    ground (arith, count_residency-sum us limits hist)

hist_total-sum : (t : ℕ) (hist : List ℕ) → t + sum hist < 2 ^ 64 → hist_total t hist ≡ t + sum hist
unfolding hist_total
hist_total-sum t [] w = omega arith
hist_total-sum t (h ∷ hist) w = ground (arith, hist_total-sum (add64 t h) hist)

-- The limit of the first bucket at which `seen` and the counts so far reach `target`; 0 if none does.
abbrev pub percentile : ℕ → ℕ → List ℕ → List ℕ → ℕ
percentile target seen (l ∷ limits) (h ∷ hist) =
    let rest = percentile target (seen + h) limits hist in if leb target (seen + h) then l else rest
percentile target seen _ _ = 0

abbrev Positive : List ℕ → Type 0
Positive [] = Unit
Positive (l ∷ limits) = (0 < l) × Positive limits

find_percentiles_p50_found :
    (t50 t95 seen p : ℕ) (limits hist : List ℕ)
    → 0 < p
    → t95 ≤ seen + sum hist
    → seen < t95
    → length hist ≡ length limits
    → seen + sum hist < 2 ^ 64
    → find_percentiles t50 t95 seen p 0 limits hist ≡ (p, percentile t95 seen limits hist)
unfolding find_percentiles
find_percentiles_p50_found t50 t95 seen p [] [] pp r lt e w = absurd (omega arith)
find_percentiles_p50_found t50 t95 seen p (l ∷ limits) [] pp r lt e w = absurd (omega arith)
find_percentiles_p50_found t50 t95 seen p [] (h ∷ hist) pp r lt e w = absurd (omega arith)
find_percentiles_p50_found t50 t95 seen p (l ∷ limits) (h ∷ hist) pp r lt e w =
    ground (arith, find_percentiles_p50_found t50 t95 (seen + h) p limits hist)

find_percentiles_lem :
    (t50 t95 seen : ℕ) (limits hist : List ℕ)
    → t50 ≤ t95
    → seen < t50
    → t95 ≤ seen + sum hist
    → length hist ≡ length limits
    → Positive limits
    → seen + sum hist < 2 ^ 64
    → find_percentiles t50 t95 seen 0 0 limits hist
      ≡ (percentile t50 seen limits hist, percentile t95 seen limits hist)
unfolding find_percentiles
find_percentiles_lem t50 t95 seen [] [] o lt r e p w = absurd (omega arith)
find_percentiles_lem t50 t95 seen (l ∷ limits) [] o lt r e p w = absurd (omega arith)
find_percentiles_lem t50 t95 seen [] (h ∷ hist) o lt r e p w = absurd (omega arith)
find_percentiles_lem t50 t95 seen (l ∷ limits) (h ∷ hist) o lt r e p w = ground (
  arith,
  find_percentiles_lem t50 t95 (seen + h) limits hist,
  find_percentiles_p50_found t50 t95 (seen + h) l limits hist,
)

length-count_residency :
    (us : ℕ) (limits hist : List ℕ) → length (count_residency us limits hist) ≡ length hist
unfolding count_residency
length-count_residency us [] hist = refl
length-count_residency us (l ∷ limits) [] = refl
length-count_residency us (l ∷ limits) (h ∷ hist) =
    ground (arith, length-count_residency us limits hist)

target50_lem : (n : ℕ) → n + 1 < 2 ^ 64 → target50 n ≡ (n + 1) / 2
unfolding target50
target50_lem n w = omega arith

target95_lem : (n : ℕ) → 0 < n → 95 * n + 99 < 2 ^ 64 → target95 n ≡ (95 * n + 99) / 100
unfolding target95
target95_lem n p w = ground arith

-- The samples that the histogram `hist` gives, over any limits.
samples-percentile :
    (limits hist : List ℕ) (n : ℕ)
    → sum hist ≡ n
    → length hist ≡ length limits
    → Positive limits
    → 0 < n
    → 95 * n + 99 < 2 ^ 64
    → find_percentiles (target50 n) (target95 n) 0 0 0 limits hist
      ≡ (percentile ((n + 1) / 2) 0 limits hist, percentile ((95 * n + 99) / 100) 0 limits hist)
samples-percentile limits hist n s e p pos w =
    rw (target50_lem n (omega arith), target95_lem n pos w)
      (find_percentiles_lem ((n + 1) / 2) ((95 * n + 99) / 100) 0 limits hist (omega arith)
        (omega arith) (omega arith) e p (omega arith))

abbrev Sampled : ℕ → Core → Type 0
Sampled n uc =
    (uc.residency_us_p50_sample ≡ percentile ((n + 1) / 2) 0 bucket_limits uc.residency_hist)
    × (uc.residency_us_p95_sample
        ≡ percentile ((95 * n + 99) / 100) 0 bucket_limits uc.residency_hist)

hist-refresh_samples : (uc : Core) → (refresh_samples uc).residency_hist ≡ uc.residency_hist
unfolding refresh_samples
hist-refresh_samples uc = ground arith

refresh_samples-Sampled :
    (uc : Core) (n : ℕ)
    → sum uc.residency_hist ≡ n
    → length uc.residency_hist ≡ 16
    → 0 < n
    → 95 * n + 99 < 2 ^ 64
    → Sampled n (refresh_samples uc)
unfolding refresh_samples
refresh_samples-Sampled uc n s e pos w = ground (
  arith,
  hist_total-sum 0 uc.residency_hist (omega arith),
  samples-percentile bucket_limits uc.residency_hist n s e (omega arith) pos w,
)

-- Every 64-bit residency falls into a bucket.
covers : (us : ℕ) → us < 2 ^ 64 → Covers bucket_limits us
covers us h = ground arith

-- A finished request adds one to the histogram in all, and the two samples are then the nearest-rank
-- percentiles: the limits of the first buckets that reach half of the count, and 95 hundredths of it,
-- rounded up. The histogram has a bucket for each of the 16 limits, the residency is a 64-bit
-- number, and 95 times the count fits in 64 bits.
pub record_residency-percentile :
    (uc : Core) (us : ℕ)
    → us < 2 ^ 64
    → length uc.residency_hist ≡ 16
    → 95 * (sum uc.residency_hist + 1) + 99 < 2 ^ 64
    → let uc' = record_residency uc us in
      let n = sum uc.residency_hist + 1 in
      (sum uc'.residency_hist ≡ n)
      × (uc'.residency_us_p50_sample ≡ percentile ((n + 1) / 2) 0 bucket_limits uc'.residency_hist)
      × (uc'.residency_us_p95_sample
          ≡ percentile ((95 * n + 99) / 100) 0 bucket_limits uc'.residency_hist)
unfolding record_residency
record_residency-percentile uc us h e w =
    let hist = count_residency us bucket_limits uc.residency_hist in
    let counted = record uc {
      residency_us_max = if ltb uc.residency_us_max us then us else uc.residency_us_max;
      residency_hist = hist;
    } in
    let n = sum uc.residency_hist + 1 in
    let one_more : sum hist ≡ n =
      count_residency-sum us bucket_limits uc.residency_hist e (covers us h) (omega arith) in
    let sampled =
      refresh_samples-Sampled counted n one_more
        (length-count_residency us bucket_limits uc.residency_hist ∙ e) (omega arith) w in
    let settled = rw (hist-refresh_samples counted) at sampled in
    rw (hist-refresh_samples counted) (one_more, settled.0, settled.1)
