-- ===== src/MetricMapper/Latest.antt =====
-- What a mapper answers after it was loaded.
use monis_agent.Common.{
  ℕ, ◌≡◌, refl, ap, ◌∙◌, List, [], ◌∷◌, Option, none, some, Bool, true, false, ◌&&◌, Bool-cases,
  inl, inr, if◌then◌else◌,
}
use monis_agent.Common.Text.{Text, text_eq, text_eq→eq}
use monis_agent.Common.Dict.{lookup, lookup-insert}
use monis_agent.MetricMapper
use monis_agent.MetricMapper.{
  MetricMapper, Mapping, scoped_by, same_scope, known, or_empty, or_spec, load_into, load_one, load,
  map,
}

-- The id found for a name in a scope.
abbrev find : Text → Option Text → MetricMapper → Option ℕ
find name none mapper = lookup name mapper.unscoped
find name (some s) mapper = lookup name (or_empty (lookup s mapper.scoped))

abbrev is_for : Text → Option Text → Mapping → Bool
is_for name scope x = same_scope (scoped_by x.scope) (scoped_by scope) && text_eq x.name name

abbrev pub or_older : Option ℕ → Option ℕ → Option ℕ
or_older (some id) older = some id
or_older none older = older

-- The id of the last entry for a name in a scope.
unfoldable pub latest : Text → Option Text → List Mapping → Option ℕ
latest name scope [] = none
latest name scope (x ∷ raw) =
    or_older (latest name scope raw) (if is_for name scope x then some x.id else none)

load_into-find :
    (scope s : Option Text) (x : Mapping) (name : Text) (mapper : MetricMapper)
    → find name s (load_into scope x mapper)
      ≡ (if same_scope scope s && text_eq x.name name then some x.id else find name s mapper)
unfolding load_into
load_into-find none none x name mapper = lookup-insert x.name name x.id mapper.unscoped
load_into-find none (some s) x name mapper = refl
load_into-find (some scope) none x name mapper = refl
load_into-find (some scope) (some s) x name mapper = elim (Bool-cases (text_eq scope s)) [
  | inl same ↦
      rw (lookup-insert scope s _ mapper.scoped, same, ← (text_eq→eq scope s same))
        (lookup-insert x.name name x.id _)
  | inr differs ↦ rw (lookup-insert scope s _ mapper.scoped, differs) refl
]

or_older_assoc :
    (a : Option ℕ) (b : Bool) (n : ℕ) (c : Option ℕ)
    → or_older a (if b then some n else c) ≡ or_older (or_older a (if b then some n else none)) c
or_older_assoc none true n c = refl
or_older_assoc none false n c = refl
or_older_assoc (some id) b n c = refl

load-find :
    (raw : List Mapping) (mapper : MetricMapper) (name : Text) (scope : Option Text)
    → find name (scoped_by scope) (load raw mapper)
      ≡ or_older (latest name scope raw) (find name (scoped_by scope) mapper)
unfolding load load_one latest
load-find [] mapper name scope = refl
load-find (x ∷ raw) mapper name scope =
    load-find raw (load_one x mapper) name scope
    ∙ ap (or_older (latest name scope raw))
        (load_into-find (scoped_by x.scope) (scoped_by scope) x name mapper)
    ∙ or_older_assoc (latest name scope raw) (is_for name scope x) x.id _

map-find :
    (name : Text) (scope : Option Text) (mapper : MetricMapper)
    → map name scope mapper
      ≡ or_spec (known (find name (scoped_by scope) mapper)) name (scoped_by scope)
unfolding map
map-find name none mapper = refl
map-find name (some []) mapper = refl
map-find name (some (c ∷ s)) mapper = refl

or_older-none : (a : Option ℕ) → or_older a none ≡ a
or_older-none none = refl
or_older-none (some id) = refl

find-new : (name : Text) (s : Option Text) → find name s (MetricMapper.new []) ≡ none
unfolding MetricMapper.new load lookup
find-new name none = refl
find-new name (some s) = refl

-- After a new mapper is made of one list and loads another, the answer for a name in a scope is the id
-- of the last entry for them in the lists, if there is one and its id is not 0, and the
-- specification of the metric otherwise.
pub map-load :
    (first raw : List Mapping) (name : Text) (scope : Option Text)
    → map name scope (load raw (MetricMapper.new first))
      ≡ or_spec
          (known (or_older (latest name scope raw) (latest name scope first)))
          name
          (scoped_by scope)
unfolding MetricMapper.new
map-load first raw name scope =
    map-find name scope (load raw (MetricMapper.new first))
    ∙ ap (λ o. or_spec (known o) name (scoped_by scope))
        (load-find raw (MetricMapper.new first) name scope
          ∙ ap (or_older (latest name scope raw)) (
              load-find first (MetricMapper.new []) name scope
              ∙ ap (or_older (latest name scope first)) (find-new name (scoped_by scope))
              ∙ or_older-none (latest name scope first)))
