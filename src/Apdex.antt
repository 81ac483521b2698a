-- ===== src/Apdex.antt =====
-- lib/stats/apdex.js: how many times were satisfying, tolerable and frustrating. Times are in
-- the unit of Stats, in which four times a number is exact.
pub mod Zones
use monis_agent.Common.{
  ℕ, suc, ◌+◌, ◌*◌, List, [], ◌∷◌, Option, none, some, leb, ◌==◌, if◌then◌else◌,
}
use mathlib.Core.Option

pub record ApdexStats : Type 0 where
  pub apdex_t : ℕ
  pub satisfying : ℕ
  pub tolerating : ℕ
  pub frustrating : ℕ

-- The constructor throws (`none`) if it is given no number.
unfoldable pub new : Option ℕ → Option ApdexStats
new none = none
new (some t) = some (record { apdex_t = t; satisfying = 0; tolerating = 0; frustrating = 0 })

-- `overrideApdex || this.apdexT`
abbrev pub threshold : ApdexStats → Option ℕ → ℕ
threshold s none = s.apdex_t
threshold s (some t) = if t == 0 then s.apdex_t else t

unfoldable pub record_value : ApdexStats → ℕ → Option ℕ → ApdexStats
record_value s time override_apdex =
    let t = threshold s override_apdex in
    if leb time t
    then record s { satisfying = suc s.satisfying }
    else if leb time (4 * t)
    then record s { tolerating = suc s.tolerating }
    else record s { frustrating = suc s.frustrating }

-- `time * FROM_MILLIS` is the host's operation, an argument.
unfoldable pub record_value_in_millis : (ℕ → ℕ) → ApdexStats → ℕ → Option ℕ → ApdexStats
unfolding record_value
record_value_in_millis from_millis s time override_apdex =
    record_value s (from_millis time) (Option.map from_millis override_apdex)

unfoldable pub increment_frustrating : ApdexStats → ApdexStats
increment_frustrating s = record s { frustrating = suc s.frustrating }

unfoldable pub merge : ApdexStats → ApdexStats → ApdexStats
merge s other = record s {
  satisfying = s.satisfying + other.satisfying;
  tolerating = s.tolerating + other.tolerating;
  frustrating = s.frustrating + other.frustrating;
}

unfoldable pub to_json : ApdexStats → List ℕ
to_json s = s.satisfying ∷ s.tolerating ∷ s.frustrating ∷ s.apdex_t ∷ s.apdex_t ∷ 0 ∷ []

-- Times recorded one after the other, under one override.
unfoldable pub record_all : ApdexStats → Option ℕ → List ℕ → ApdexStats
unfolding record_value
record_all s override_apdex [] = s
record_all s override_apdex (t ∷ times) =
    record_all (record_value s t override_apdex) override_apdex times
