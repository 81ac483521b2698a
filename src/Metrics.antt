-- ===== src/Metrics.antt =====
-- lib/metrics/index.js: collections of metrics by name, with a scope or without. The objects that a
-- collection holds are its own: `merge` of a metric that the collection lacks shares the object with
-- the other collection, which the callers give up. Numbers are as in Stats; a
-- statistic that becomes NaN is `none`.
pub mod Views
pub mod Measuring
pub mod Proper
pub mod Merging
pub mod Scopes
pub mod Alike
pub mod Collecting
use monis_agent.Common.{
  ℕ, ◌+◌, min, List, [], ◌∷◌, ◌++◌, Option, none, some, Bool, true, false, ◌&&◌, ltb, if◌then◌else◌,
}
use monis_agent.Common.Text.{Text, codes, text_eq}
use monis_agent.Common.Dict.{Dict, lookup, insert}
use monis_agent.Stats
use monis_agent.Stats.{Arithmetic, Stats, summary}
use monis_agent.Apdex
use monis_agent.Apdex.{ApdexStats}
use monis_agent.NormalizerRule.{Engine}
use monis_agent.Normalizer
use monis_agent.Normalizer.{Normalizer, normalize}
use monis_agent.MetricMapper
use monis_agent.MetricMapper.{MetricMapper, Mapped, scoped_by}

-- A metric is a summary of one of two kinds.
pub data Metric : Type 0 where
  timing : Stats → Metric
  apdex : ApdexStats → Metric

pub record Metrics : Type 0 where
  pub empty : Bool
  pub started : ℕ
  pub apdex_t : ℕ
  pub unscoped : Dict Metric
  pub scoped : Dict (Dict Metric)

-- The constructor throws on a missing tolerating time. The mapper and the normalizer, which the
-- collection passes on, are arguments of `to_json`.
unfoldable pub new : (started : ℕ) → Option ℕ → Option Metrics
new started none = none
new started (some apdex_t) =
    some (record { empty = true; started = started; apdex_t = apdex_t; unscoped = []; scoped = [] })

abbrev pub or_empty : Option (Dict Metric) → Dict Metric
or_empty none = []
or_empty (some d) = d

-- `_resolve`: the names of a scope, which is made if it is missing.
unfoldable pub resolve : Option Text → Metrics → Dict Metric × Metrics
resolve scope m = elim (scoped_by scope) [
  | none ↦ (m.unscoped, m)
  | some s ↦
      let resolved = or_empty (lookup s m.scoped) in
      (resolved, record m { scoped = insert s resolved m.scoped })
]

-- What is written to the object that `_resolve` returned.
unfoldable pub write_back : Option Text → Dict Metric → Metrics → Metrics
write_back scope resolved m = elim (scoped_by scope) [
  | none ↦ record m { unscoped = resolved }
  | some s ↦ record m { scoped = insert s resolved m.scoped }
]

-- The metric that was found under the resolved names, or a new one.
unfoldable pub or_create :
    Text → Option Text → Dict Metric × Metrics → Option Metric → Metric × Metrics
unfolding write_back Stats.new
or_create name scope r (some stats) = (stats, r.1)
or_create name scope r none = (
  timing Stats.new,
  record (write_back scope (insert name (timing Stats.new) r.0) r.1) { empty = false },
)

unfoldable pub get_or_create_metric : Text → Option Text → Metrics → Metric × Metrics
unfolding resolve or_create
get_or_create_metric name scope m =
    let r = resolve scope m in or_create name scope r (lookup name r.0)

-- The metric object changes in place.
unfoldable pub update_metric : Text → Option Text → Metric → Metrics → Metrics
unfolding resolve write_back
update_metric name scope stats m =
    let r = resolve scope m in write_back scope (insert name stats r.0) r.1

module _ ⦃F : Arithmetic⦄ where
  -- `stats.recordValueInMillis`, by the kind of the metric; the second time is the exclusive one, or the
  -- tolerating one that overrides the metric's own.
  unfoldable pub record_in_millis : Option ℕ → Option ℕ → Metric → Option Metric
  record_in_millis duration exclusive (timing s) =
      some (timing (Stats.record_value_in_millis s duration exclusive))
  record_in_millis none exclusive (apdex s) = none
  record_in_millis (some duration) exclusive (apdex s) =
      some (apdex (Apdex.record_value_in_millis F.from_millis s duration exclusive))

  unfoldable pub record_into :
      Text → Option Text → Option ℕ → Option ℕ → Metric × Metrics → Option Metrics
  unfolding update_metric
  record_into name scope duration exclusive r = elim (record_in_millis duration exclusive r.0) [
    | none ↦ none
    | some stats ↦ some (update_metric name scope stats r.1)
  ]

  unfoldable pub measure_milliseconds :
      Text → Option Text → Option ℕ → Option ℕ → Metrics → Option Metrics
  unfolding get_or_create_metric record_into
  measure_milliseconds name scope duration exclusive m =
      record_into name scope duration exclusive (get_or_create_metric name scope m)

  unfoldable pub measure_bytes : Text → ℕ → Option ℕ → Bool → Metrics → Option Metrics
  unfolding get_or_create_metric update_metric
  measure_bytes name size exclusive exact m =
      let r = get_or_create_metric name none m in
      elim r.0 [
        | apdex s ↦ none
        | timing s ↦ some (
            update_metric name none (timing (Stats.record_value_in_bytes s size exclusive exact))
              r.1)
      ]

-- `NAMES.APDEX`
abbrev pub apdex_name : Text
apdex_name = codes "Apdex"

abbrev is_positive : Option ℕ → Bool
is_positive none = false
is_positive (some n) = ltb 0 n

abbrev or_default : Option ℕ → ℕ → ℕ
or_default none d = d
or_default (some n) d = n

-- `none`: a metric must be named.
unfoldable pub get_or_create_apdex_metric :
    Text → Option Text → Option ℕ → Metrics → Option (Metric × Metrics)
unfolding resolve write_back Apdex.new
get_or_create_apdex_metric [] scope override m = none
get_or_create_apdex_metric (c ∷ name) scope override m =
    let r = resolve scope m in
    let overrides = is_positive override in
    let apdex_t =
      if text_eq (c ∷ name) apdex_name
      then m.apdex_t
      else if overrides
      then or_default override m.apdex_t
      else m.apdex_t in
    elim (lookup (c ∷ name) r.0) [
      | some stats ↦ some (stats, r.1)
      | none ↦ elim (Apdex.new (some apdex_t)) [
        | none ↦ none
        | some stats ↦ some (
          apdex stats,
          record (write_back scope (insert (c ∷ name) (apdex stats) r.0) r.1) { empty = false },
        )
      ]
    ]

-- The first `none`: a metric must be named.
unfoldable pub get_metric : Text → Option Text → Metrics → Option (Option Metric × Metrics)
unfolding resolve
get_metric [] scope m = none
get_metric (c ∷ name) scope m = let r = resolve scope m in some (lookup (c ∷ name) r.0, r.1)

module _ ⦃F : Arithmetic⦄ where
  -- `a[name].merge(b[name])`; two kinds of metric under one name give NaN.
  unfoldable pub merge_metric : Metric → Metric → Option Metric
  merge_metric (timing s) (timing t) = elim (Stats.merge s (summary t)) [
    | none ↦ none
    | some u ↦ some (timing u)
  ]
  merge_metric (apdex s) (apdex t) = some (apdex (Apdex.merge s t))
  merge_metric (timing s) (apdex t) = none
  merge_metric (apdex s) (timing t) = none

  -- `_merge`
  unfoldable pub merge_names : Dict Metric → Dict Metric → Option (Dict Metric)
  merge_names a [] = some a
  merge_names a ((name, theirs) ∷ b) = elim (lookup name a) [
    | none ↦ merge_names (insert name theirs a) b
    | some ours ↦ elim (merge_metric ours theirs) [
      | none ↦ none
      | some both ↦ merge_names (insert name both a) b
    ]
  ]

  unfoldable pub merge_scopes : Dict (Dict Metric) → Metrics → Option Metrics
  unfolding resolve write_back
  merge_scopes [] m = some m
  merge_scopes ((scope, names) ∷ scopes) m =
      let r = resolve (some scope) m in
      elim (merge_names r.0 names) [
        | none ↦ none
        | some merged ↦ merge_scopes scopes (write_back (some scope) merged r.1)
      ]

  unfoldable pub merge : Metrics → Bool → Metrics → Option Metrics
  merge other adjust_start_time m = elim (merge_names m.unscoped other.unscoped) [
    | none ↦ none
    | some merged ↦ merge_scopes other.scoped (record m {
      empty = m.empty && other.empty;
      started = if adjust_start_time then min m.started other.started else m.started;
      unscoped = merged;
    })
  ]

-- Object.keys visits the names in the order of the dictionary; names like array indices, which the host
-- visits first, are not told apart.
module _ (E : Engine) where
  -- `_getUnscopedData` and `_getScopedData`, of a metric that is there.
  unfoldable pub get_data :
      Option Text
      → Text
      → Metric
      → MetricMapper
      → Normalizer E
      → Option (Mapped × Metric) × Normalizer E
  get_data scope name stats mapper normalizer =
      let done = normalize E normalizer name in
      (
        elim done.0.value [
          | [] ↦ none
          | c ∷ value ↦
              if done.0.ignore
              then none
              else some (MetricMapper.map (c ∷ value) scope mapper, stats)
        ],
        done.1,
      )

  abbrev pushed : Option (Mapped × Metric) → List (Mapped × Metric) → List (Mapped × Metric)
  pushed none pairs = pairs
  pushed (some entry) pairs = entry ∷ pairs

  -- The rules of the normalizer keep what they last matched.
  unfoldable pub names_data :
      Option Text
      → Dict Metric
      → MetricMapper
      → Normalizer E
      → List (Mapped × Metric) × Normalizer E
  unfolding get_data
  names_data scope [] mapper normalizer = ([], normalizer)
  names_data scope ((name, stats) ∷ names) mapper normalizer =
      let entry = get_data scope name stats mapper normalizer in
      let rest = names_data scope names mapper entry.1 in (pushed entry.0 rest.0, rest.1)

  unfoldable pub scopes_data :
      Dict (Dict Metric) → MetricMapper → Normalizer E → List (Mapped × Metric) × Normalizer E
  unfolding names_data
  scopes_data [] mapper normalizer = ([], normalizer)
  scopes_data ((scope, names) ∷ scopes) mapper normalizer =
      let here = names_data (some scope) names mapper normalizer in
      let rest = scopes_data scopes mapper here.1 in (here.0 ++ rest.0, rest.1)

  unfoldable pub to_json :
      Metrics → MetricMapper → Normalizer E → List (Mapped × Metric) × Normalizer E
  unfolding names_data scopes_data
  to_json m mapper normalizer =
      let here = names_data none m.unscoped mapper normalizer in
      let rest = scopes_data m.scoped mapper here.1 in (here.0 ++ rest.0, rest.1)
