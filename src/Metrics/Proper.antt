-- ===== src/Metrics/Proper.antt =====
-- Names and scopes stand once in a collection.
use monis_agent.Common.{
  ℕ, ◌≡◌, sym, subst, ◌∙◌, [], ◌∷◌, Option, none, some, Bool, false, arith, Bool-cases,
  Option-cases, inl, inr,
}
use monis_agent.Common.Text.{Text, text_eq}
use monis_agent.Common.Dict.{Dict, lookup, insert, lookup-insert, IsDistinct, insert-IsDistinct}
use monis_agent.Stats.{Arithmetic}
use monis_agent.MetricMapper.{scoped_by, same_scope}
use monis_agent.Metrics.{
  Metric, Metrics, or_empty, resolve, write_back, or_create, get_or_create_metric, record_into,
  record_in_millis, update_metric, measure_milliseconds,
}
use monis_agent.Metrics.Views.{names_of, resolve-names, names_of-write_back}
use monis_agent.Metrics.Measuring.{resolved-names}

pub record IsProper (m : Metrics) : Type 0 where
  pub scopes_once : IsDistinct m.scoped
  pub scopes_named : lookup [] m.scoped ≡ none
  pub names_once : (scope : Option Text) → IsDistinct (names_of scope m)

resolved-IsDistinct :
    (scope : Option Text) (m : Metrics)
    → IsDistinct m.scoped
    → IsDistinct (resolve scope m).1.scoped
unfolding resolve
resolved-IsDistinct none m h = h
resolved-IsDistinct (some []) m h = h
resolved-IsDistinct (some (c ∷ s)) m h =
    insert-IsDistinct (c ∷ s) (or_empty (lookup (c ∷ s) m.scoped)) m.scoped h

write_back-IsDistinct :
    (scope : Option Text) (d : Dict Metric) (m : Metrics)
    → IsDistinct m.scoped
    → IsDistinct (write_back scope d m).scoped
unfolding write_back
write_back-IsDistinct none d m h = h
write_back-IsDistinct (some []) d m h = h
write_back-IsDistinct (some (c ∷ s)) d m h = insert-IsDistinct (c ∷ s) d m.scoped h

-- No scope is empty.
resolved-named :
    (scope : Option Text) (m : Metrics)
    → lookup [] m.scoped ≡ none
    → lookup [] (resolve scope m).1.scoped ≡ none
unfolding resolve lookup text_eq
resolved-named none m h = h
resolved-named (some []) m h = h
resolved-named (some (c ∷ s)) m h =
    lookup-insert (c ∷ s) [] (or_empty (lookup (c ∷ s) m.scoped)) m.scoped ∙ h

write_back-named :
    (scope : Option Text) (d : Dict Metric) (m : Metrics)
    → lookup [] m.scoped ≡ none
    → lookup [] (write_back scope d m).scoped ≡ none
unfolding write_back lookup text_eq
write_back-named none d m h = h
write_back-named (some []) d m h = h
write_back-named (some (c ∷ s)) d m h = lookup-insert (c ∷ s) [] d m.scoped ∙ h

resolve-IsProper : (scope : Option Text) (m : Metrics) → IsProper m → IsProper (resolve scope m).1
resolve-IsProper scope m h = record {
  scopes_once = resolved-IsDistinct scope m h.scopes_once;
  scopes_named = resolved-named scope m h.scopes_named;
  names_once = λ other. subst IsDistinct (sym (resolved-names scope other m)) (h.names_once other);
}

write_back-IsProper :
    (scope : Option Text) (d : Dict Metric) (m : Metrics)
    → IsDistinct d
    → IsProper m
    → IsProper (write_back scope d (resolve scope m).1)
write_back-IsProper scope d m distinct h = record {
  scopes_once = write_back-IsDistinct scope d _ (resolved-IsDistinct scope m h.scopes_once);
  scopes_named = write_back-named scope d _ (resolved-named scope m h.scopes_named);
  names_once = λ other.
      subst IsDistinct (sym (names_of-write_back scope other d m))
        (elim (Bool-cases (same_scope (scoped_by scope) other)) [
          | inl same ↦ rw same distinct
          | inr differs ↦ rw differs (h.names_once other)
        ]);
}

with_empty-IsProper : (b : Bool) (m : Metrics) → IsProper m → IsProper (record m { empty = b })
with_empty-IsProper b m h = record {
  scopes_once = h.scopes_once;
  scopes_named = h.scopes_named;
  names_once = λ other. elim other as (λ o. IsDistinct (names_of o (record m { empty = b }))) [
    | none ↦ h.names_once none
    | some s ↦ h.names_once (some s)
  ];
}

update_metric-IsProper :
    (name : Text) (scope : Option Text) (stats : Metric) (m : Metrics)
    → IsProper m
    → IsProper (update_metric name scope stats m)
unfolding update_metric
update_metric-IsProper name scope stats m h =
    write_back-IsProper scope (insert name stats (resolve scope m).0) m
      (insert-IsDistinct name stats (resolve scope m).0
        (subst IsDistinct (sym (resolve-names scope m)) (h.names_once (scoped_by scope))))
      h

or_create-IsProper :
    (name : Text) (scope : Option Text) (m : Metrics) (o : Option Metric)
    → IsProper m
    → IsProper (or_create name scope (resolve scope m) o).1
unfolding or_create
or_create-IsProper name scope m (some stats) h = resolve-IsProper scope m h
or_create-IsProper name scope m none h = with_empty-IsProper false _ (
    write_back-IsProper scope _ m
      (insert-IsDistinct name _ (resolve scope m).0
        (subst IsDistinct (sym (resolve-names scope m)) (h.names_once (scoped_by scope))))
      h)

module _ ⦃F : Arithmetic⦄ where
  record_into-IsProper :
      (name : Text) (scope : Option Text) (duration exclusive : Option ℕ) (r : Metric × Metrics)
      (m' : Metrics)
      → IsProper r.1
      → record_into name scope duration exclusive r ≡ some m'
      → IsProper m'
  unfolding record_into
  record_into-IsProper name scope duration exclusive r m' h e =
      elim (Option-cases (record_in_millis duration exclusive r.0)) [
        | inl fails ↦ ground (arith, e, fails)
        | inr stats ↦
            let same : update_metric name scope stats.0 r.1 ≡ m' = ground (arith, e, stats.1) in
            subst IsProper same (update_metric-IsProper name scope stats.0 r.1 h)
      ]

  pub measure_milliseconds-IsProper :
      (name : Text) (scope : Option Text) (duration exclusive : Option ℕ) (m m' : Metrics)
      → IsProper m
      → measure_milliseconds name scope duration exclusive m ≡ some m'
      → IsProper m'
  unfolding measure_milliseconds get_or_create_metric
  measure_milliseconds-IsProper name scope duration exclusive m m' h e =
      record_into-IsProper name scope duration exclusive _ m'
        (or_create-IsProper name scope m (lookup name (resolve scope m).0) h) e
