-- ===== src/Stats.antt =====
-- lib/stats/index.js: the running statistics of one metric. Numbers are finite and not negative, and are
-- given in units of the least positive one, 2^-1074, of which each is a whole multiple. The operations
-- that round are an interface, `Arithmetic`, without laws; call counts are numbers of their own. A
-- missing or invalid argument is `none`.
pub mod Recording
pub mod Merging
use monis_agent.Common.{
  ℕ, zero, suc, ◌+◌, min, max, List, [], ◌∷◌, Option, none, some, Bool, true, false, ltb, ◌==◌,
  if◌then◌else◌,
}
use mathlib.Core.Option

-- The host's operations on such numbers: `a + b`, `a * a`, `a * FROM_MILLIS` and `a / BYTES_PER_MB`.
pub record Arithmetic : Type 0 where
  pub add : ℕ → ℕ → ℕ
  pub square : ℕ → ℕ
  pub from_millis : ℕ → ℕ
  pub to_megabytes : ℕ → ℕ

pub record Stats : Type 0 where
  pub total : ℕ
  pub total_exclusive : ℕ
  pub min_value : ℕ
  pub max_value : ℕ
  pub sum_of_squares : ℕ
  pub call_count : ℕ

unfoldable pub new : Stats
new = record {
  total = 0;
  total_exclusive = 0;
  min_value = 0;
  max_value = 0;
  sum_of_squares = 0;
  call_count = 0;
}

-- An argument that is no number counts as the given default.
abbrev pub or_else : Option ℕ → ℕ → ℕ
or_else none d = d
or_else (some n) d = n

unfoldable pub increment_call_count : Stats → Option ℕ → Stats
increment_call_count s count = record s { call_count = s.call_count + or_else count 1 }

-- What `merge` takes: another summary, or an object with `count` in place of `callCount`.
pub record Summary : Type 0 where
  pub count : Option ℕ
  pub call_count : Option ℕ
  pub total : ℕ
  pub total_exclusive : Option ℕ
  pub min_value : ℕ
  pub max_value : ℕ
  pub sum_of_squares : ℕ

-- `if (other.count && !other.callCount) other.callCount = other.count`
abbrev pub merged_count : Option ℕ → Option ℕ → Option ℕ
merged_count none call_count = call_count
merged_count (some count) none = if count == 0 then none else some count
merged_count (some count) (some calls) = if calls == 0 then some count else some calls

unfoldable pub to_json : Stats → List ℕ
to_json s =
    s.call_count ∷ s.total ∷ s.total_exclusive ∷ s.min_value ∷ s.max_value ∷ s.sum_of_squares ∷ []

-- Another `Stats` as an argument of `merge`.
abbrev pub summary : Stats → Summary
summary s = record {
  count = none;
  call_count = some s.call_count;
  total = s.total;
  total_exclusive = some s.total_exclusive;
  min_value = s.min_value;
  max_value = s.max_value;
  sum_of_squares = s.sum_of_squares;
}

module _ ⦃F : Arithmetic⦄ where
  unfoldable pub record_value : Stats → Option ℕ → Option ℕ → Stats
  record_value s total_time exclusive_time =
      let t = or_else total_time 0 in
      record s {
        min_value = if ltb 0 s.call_count then min t s.min_value else t;
        max_value = max t s.max_value;
        sum_of_squares = F.add s.sum_of_squares (F.square t);
        call_count = suc s.call_count;
        total = F.add s.total t;
        total_exclusive = F.add s.total_exclusive (or_else exclusive_time t);
      }

  -- A missing total time becomes NaN, which counts as missing.
  unfoldable pub record_value_in_millis : Stats → Option ℕ → Option ℕ → Stats
  unfolding record_value
  record_value_in_millis s total_time exclusive_time =
      record_value s (Option.map F.from_millis total_time) (Option.map F.from_millis exclusive_time)

  unfoldable pub record_value_in_bytes : Stats → ℕ → Option ℕ → (exact : Bool) → Stats
  unfolding record_value
  record_value_in_bytes s bytes exclusive_bytes false =
      record_value s (some (F.to_megabytes bytes))
        (some (F.to_megabytes (or_else exclusive_bytes bytes)))
  record_value_in_bytes s bytes exclusive_bytes true =
      record_value s (some bytes) (some (or_else exclusive_bytes bytes))

  abbrev fold_in : Stats → Summary → ℕ → Stats
  fold_in s other calls = record s {
    min_value =
        if ltb 0 calls
        then (if ltb 0 s.call_count then min s.min_value other.min_value else other.min_value)
        else s.min_value;
    max_value = max s.max_value other.max_value;
    total = F.add s.total other.total;
    total_exclusive = F.add s.total_exclusive (or_else other.total_exclusive other.total);
    sum_of_squares = F.add s.sum_of_squares other.sum_of_squares;
    call_count = s.call_count + calls;
  }

  -- `none`: the call count becomes NaN, since the other summary has neither count.
  unfoldable pub merge : Stats → Summary → Option Stats
  merge s other = elim (merged_count other.count other.call_count) [
    | none ↦ none
    | some calls ↦ some (fold_in s other calls)
  ]

  -- Measurements one after the other.
  unfoldable pub record_all : Stats → List (Option ℕ × Option ℕ) → Stats
  unfolding record_value
  record_all s [] = s
  record_all s (m ∷ ms) = record_all (record_value s m.0 m.1) ms
