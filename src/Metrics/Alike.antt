-- ===== src/Metrics/Alike.antt =====
-- Metrics that are alike up to the rounding of their sums, and what merging does to them.
use monis_agent.Common.{ℕ, ◌≡◌, refl, ◌∙◌, Option, none, some}
use mathlib.Core.Option
use monis_agent.Stats
use monis_agent.Stats.{Arithmetic, Stats}
use monis_agent.Stats.Merging.{Alike, merge-new, merge-record_value, record_value-Alike}
use monis_agent.Apdex.{ApdexStats}
use monis_agent.Metrics.{Metric, timing, apdex, merge_metric}
use monis_agent.Metrics.Views.{IsTiming}
use monis_agent.Metrics.Measuring.{recorded}
use monis_agent.Metrics.Merging.{merge_found}

module _ ⦃F : Arithmetic⦄ where
  -- A found metric is a timing one.
  abbrev pub IsFound : Option Metric → Type 0
  IsFound o = (metric : Metric) → o ≡ some metric → IsTiming metric

  -- Metrics of the same count and extremes, or none.
  abbrev pub AlikeFound : Option Metric → Option Metric → Type 0
  AlikeFound none none = Unit
  AlikeFound (some (timing s)) (some (timing t)) = Alike s t
  AlikeFound _ _ = ⊥

  merge-recorded :
      (s t b : Stats) (x e : Option ℕ)
      → AlikeFound (merge_metric (timing s) (timing t)) (some (timing b))
      → AlikeFound
          (merge_metric (timing s) (timing (Stats.record_value_in_millis t x e)))
          (some (timing (Stats.record_value_in_millis b x e)))
  unfolding merge_metric Stats.merge Stats.record_value_in_millis
  merge-recorded s t b x e a =
      merge-record_value s t _ _ b (Option.map F.from_millis x) (Option.map F.from_millis e) refl
        refl a

  merge-started :
      (s b : Stats)
      → Alike s b
      → AlikeFound (merge_metric (timing s) (timing Stats.new)) (some (timing b))
  unfolding merge_metric Stats.merge
  merge-started s b a =
      let h = merge-new s _ refl in
      record {
        call_count = h.call_count ∙ a.call_count;
        min_value = h.min_value ∙ a.min_value;
        max_value = h.max_value ∙ a.max_value;
      }

  recorded-Alike :
      (s t : Stats) (x e : Option ℕ)
      → Alike s t
      → Alike (Stats.record_value_in_millis s x e) (Stats.record_value_in_millis t x e)
  unfolding Stats.record_value_in_millis
  recorded-Alike s t x e a =
      record_value-Alike s t (Option.map F.from_millis x) (Option.map F.from_millis e) a

  Alike-refl : (s : Stats) → Alike s s
  Alike-refl s = record { call_count = refl; min_value = refl; max_value = refl }

  -- Two metrics of different kinds do not merge.
  no_apdex : (o : Option Metric) (a : ApdexStats) → AlikeFound o (some (apdex a)) → ⊥
  no_apdex none a h = h
  no_apdex (some (timing t)) a h = h
  no_apdex (some (apdex b)) a h = h

  merged_found : (s t : Stats) → AlikeFound (merge_metric (timing s) (timing t)) none → ⊥
  unfolding merge_metric Stats.merge
  merged_found s t h = h

  -- Recording in what is like what merging gives is like merging what was recorded.
  pub recorded-merge_found :
      (x e : Option ℕ) (ours theirs both : Option Metric)
      → IsFound ours
      → IsFound theirs
      → AlikeFound (merge_found ours theirs) both
      → AlikeFound (merge_found ours (some (recorded x e theirs))) (some (recorded x e both))
  unfolding Stats.new
  recorded-merge_found x e none none none ho ht h = Alike-refl _
  recorded-merge_found x e none none (some both) ho ht h = absurd h
  recorded-merge_found x e none (some (timing t)) none ho ht h = absurd h
  recorded-merge_found x e none (some (timing t)) (some (timing b)) ho ht h =
      recorded-Alike t b x e h
  recorded-merge_found x e none (some (timing t)) (some (apdex b)) ho ht h = absurd h
  recorded-merge_found x e (some (timing s)) none none ho ht h = absurd h
  recorded-merge_found x e (some (timing s)) none (some (timing b)) ho ht h =
      merge-recorded s Stats.new b x e (merge-started s b h)
  recorded-merge_found x e (some (timing s)) none (some (apdex b)) ho ht h = absurd h
  recorded-merge_found x e (some (timing s)) (some (timing t)) none ho ht h =
      absurd (merged_found s t h)
  recorded-merge_found x e (some (timing s)) (some (timing t)) (some (timing b)) ho ht h =
      merge-recorded s t b x e h
  recorded-merge_found x e (some (timing s)) (some (timing t)) (some (apdex b)) ho ht h =
      absurd (no_apdex (merge_metric (timing s) (timing t)) b h)
  recorded-merge_found x e (some (apdex s)) theirs both ho ht h = absurd (ho (apdex s) refl)
  recorded-merge_found x e none (some (apdex t)) both ho ht h = absurd (ht (apdex t) refl)
  recorded-merge_found x e (some (timing s)) (some (apdex t)) both ho ht h =
      absurd (ht (apdex t) refl)

  pub found_alike : (o : Option Metric) → IsFound o → AlikeFound (merge_found o none) o
  found_alike none h = tt
  found_alike (some (timing s)) h = Alike-refl s
  found_alike (some (apdex a)) h = absurd (h (apdex a) refl)
