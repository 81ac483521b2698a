-- ===== src/Examples/Collections.antt =====
-- Collections of metrics and mappers of names at concrete inputs.
use monis_agent.Common.{
  ◌+◌, ◌*◌, ◌/◌, ◌≡◌, refl, List, [], ◌∷◌, Option, none, some, true, false, arith,
}
use monis_agent.Common.Text.{Text, codes, text_eq}
use monis_agent.Common.Dict.{lookup, insert}
use monis_agent.Stats
use monis_agent.Stats.{Arithmetic}
use monis_agent.MetricMapper
use monis_agent.MetricMapper.{Mapping, Mapped, id, spec, load, map}
use monis_agent.MetricMapper.Latest.{latest, or_older, map-load}
use monis_agent.MetricMapper.{known, or_spec, scoped_by}
use monis_agent.Metrics
use monis_agent.Metrics.{Metric, timing, Metrics, merge}
use monis_agent.Metrics.Views.{IsTimed, find, insert-AreTimings}
use monis_agent.Metrics.Alike.{AlikeFound}
use monis_agent.Metrics.Collecting.{Measurement, measure_all, merge-measure_all}

abbrev web : Text
web = codes "WebTransaction"

abbrev db : Text
db = codes "Datastore/all"

abbrev measurements : List Measurement
measurements =
    (record { name = web; scope = none; duration = some 30000; exclusive = some 10000 })
    ∷ (record { name = db; scope = some web; duration = some 20000; exclusive = none })
    ∷ (record { name = web; scope = none; duration = some 50000; exclusive = some 20000 })
    ∷ []

abbrev harvest : Metrics
unfolding Stats.new
harvest = record {
  empty = false;
  started = 7;
  apdex_t = 100;
  unscoped = (web, timing Stats.new) ∷ [];
  scoped = [];
}

harvest-IsTimed : IsTimed harvest
unfolding lookup insert harvest text_eq
harvest-IsTimed none = insert-AreTimings web Stats.new [] (λ name metric e. ground (arith, e))
harvest-IsTimed (some s) = λ name metric e. ground (arith, e)

-- Exact sums of whole numbers.
instance abbrev whole : Arithmetic
whole = record {
  add = λ a b. a + b;
  square = λ a. a * a;
  from_millis = λ a. a / 1000;
  to_megabytes = λ a. a / 1048576;
}

-- What was collected in a transaction is merged into the harvest.
merge-measure_all_example :
    (fresh collected merged direct : Metrics) × (Metrics.new 3 (some 100) ≡ some fresh)
    × (measure_all measurements fresh ≡ some collected)
    × (merge collected true harvest ≡ some merged)
    × (measure_all measurements harvest ≡ some direct)
    × ((name : Text)
        → (scope : Option Text) → AlikeFound (find name scope merged) (find name scope direct))
merge-measure_all_example = merge-measure_all measurements harvest 3 100 true harvest-IsTimed

abbrev mappings : List Mapping
mappings =
    (record { name = web; scope = none; id = 4 })
    ∷ (record { name = db; scope = some web; id = 5 })
    ∷ (record { name = web; scope = none; id = 6 })
    ∷ []

map-load_example :
    map db (some web) (load mappings (MetricMapper.new mappings))
    ≡ or_spec
        (known (or_older (latest db (some web) mappings) (latest db (some web) mappings)))
        db
        (scoped_by (some web))
map-load_example = map-load mappings mappings db (some web)

mapped_test : map web none (load mappings (MetricMapper.new [])) ≡ id 6
unfolding map load MetricMapper.new lookup insert text_eq
mapped_test = refl

unmapped_test : map db none (load mappings (MetricMapper.new [])) ≡ spec db none
unfolding map load MetricMapper.new lookup insert text_eq
unmapped_test = refl
