-- ===== src/Examples/Statistics.antt =====
-- Statistics of metrics and Apdex summaries.
use monis_agent.Common.{◌+◌, ◌*◌, ◌/◌, ◌≡◌, refl, List, [], ◌∷◌, none, some}
use monis_agent.Stats
use monis_agent.Stats.{Arithmetic, Stats, summary}
use monis_agent.Stats.Merging.{Alike, merge-record_all}
use monis_agent.Stats.Recording.{Measurement, Sums, Bounds, value, exclusive, sum, record_all_lem}
use monis_agent.Apdex
use monis_agent.Apdex.{ApdexStats}
use monis_agent.Apdex.Zones.{Zones, record_all-Zones, apdex_merge-record_all}

-- Arithmetic that keeps even numbers only.
instance abbrev truncated : Arithmetic
truncated = record {
  add = λ a b. (a + b) / 2 * 2;
  square = λ a. a * a / 2 * 2;
  from_millis = λ a. a / 1000;
  to_megabytes = λ a. a / 1048576;
}

abbrev measured : List Measurement
measured = (some 5, some 2) ∷ (some 3, none) ∷ (none, none) ∷ []

abbrev one_call : Stats
one_call = record {
  total = 4;
  total_exclusive = 4;
  min_value = 4;
  max_value = 4;
  sum_of_squares = 16;
  call_count = 1;
}

json : Stats.to_json (Stats.record_all one_call measured) ≡ 4 ∷ 10 ∷ 8 ∷ 0 ∷ 5 ∷ 48 ∷ []
unfolding Stats.to_json Stats.record_all
json = refl

merge-record_all_example :
    (u : Stats) × (Stats.merge one_call (summary (Stats.record_all Stats.new measured)) ≡ some u)
    × Alike u (Stats.record_all one_call measured)
    × (u.total ≡ truncated.add 4 (sum value 0 measured))
    × (u.total_exclusive ≡ truncated.add 4 (sum exclusive 0 measured))
    × (u.sum_of_squares ≡ truncated.add 16 (sum (λ m. truncated.square (value m)) 0 measured))
merge-record_all_example = merge-record_all one_call measured

record_all_lem_example :
    Sums one_call (Stats.record_all one_call measured) measured
    × Bounds one_call (Stats.record_all one_call measured) measured
record_all_lem_example = record_all_lem one_call measured

abbrev half_second : ApdexStats
half_second = record { apdex_t = 500; satisfying = 1; tolerating = 0; frustrating = 2 }

record_all-Zones_example :
    Zones 300 half_second
      (Apdex.record_all half_second (some 300) (400 ∷ 290 ∷ 1900 ∷ []))
      (400 ∷ 290 ∷ 1900 ∷ [])
record_all-Zones_example = record_all-Zones (400 ∷ 290 ∷ 1900 ∷ []) half_second (some 300)

apdex_merge-record_all_test :
    Apdex.merge half_second (Apdex.record_all half_second (some 100) (90 ∷ 500 ∷ []))
    ≡ Apdex.record_all (Apdex.merge half_second half_second) (some 100) (90 ∷ 500 ∷ [])
apdex_merge-record_all_test =
    apdex_merge-record_all half_second half_second (some 100) (90 ∷ 500 ∷ []) refl
