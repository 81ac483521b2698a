-- ===== src/Stats/Merging.antt =====
-- Merging two summaries (`Stats.prototype.merge`).
use monis_agent.Common.{
  ℕ, ◌≡◌, refl, ap, sym, subst, ◌∙◌, some_inj, List, [], ◌∷◌, Option, some, arith,
}
use monis_agent.Stats
use monis_agent.Stats.{Arithmetic, Stats, summary}
use monis_agent.Stats.Recording.{Measurement, value, exclusive, sum, record_all-Sums}

-- The same count and extremes; sums may be rounded differently.
pub record Alike (s t : Stats) : Type 0 where
  pub call_count : s.call_count ≡ t.call_count
  pub min_value : s.min_value ≡ t.min_value
  pub max_value : s.max_value ≡ t.max_value

module _ ⦃F : Arithmetic⦄ where
  -- Merging a summary, which has a count, does not fail.
  pub merged :
      (s t : Stats)
      → (u : Stats) × (Stats.merge s (summary t) ≡ some u)
        × (u.total ≡ F.add s.total t.total)
        × (u.total_exclusive ≡ F.add s.total_exclusive t.total_exclusive)
        × (u.sum_of_squares ≡ F.add s.sum_of_squares t.sum_of_squares)
  unfolding Stats.merge
  merged s t = (_, refl, refl, refl, refl)

  pub merge-new : (s u : Stats) → Stats.merge s (summary Stats.new) ≡ some u → Alike u s
  unfolding Stats.merge Stats.new
  merge-new s u e = ground (arith, e)

  pub merge-record_value :
      (s t u u' v : Stats) (x e : Option ℕ)
      → Stats.merge s (summary t) ≡ some u
      → Stats.merge s (summary (Stats.record_value t x e)) ≡ some u'
      → Alike u v
      → Alike u' (Stats.record_value v x e)
  unfolding Stats.merge Stats.record_value
  merge-record_value s t u u' v x e h h' a = ground (arith, h, h')

  pub record_value-Alike :
      (s t : Stats) (x e : Option ℕ)
      → Alike s t
      → Alike (Stats.record_value s x e) (Stats.record_value t x e)
  unfolding Stats.record_value
  record_value-Alike s t x e a = ground arith

  record NewSums (t : Stats) (ms : List Measurement) : Type 0 where
    total : t.total ≡ sum value 0 ms
    total_exclusive : t.total_exclusive ≡ sum exclusive 0 ms
    sum_of_squares : t.sum_of_squares ≡ sum (λ m. F.square (value m)) 0 ms

  new-Sums : (ms : List Measurement) → NewSums (Stats.record_all Stats.new ms) ms
  unfolding Stats.new
  new-Sums ms =
      let sums = record_all-Sums ms Stats.new in
      record {
        total = sums.total;
        total_exclusive = sums.total_exclusive;
        sum_of_squares = sums.sum_of_squares;
      }

  merge-record_all_from :
      (s t u u' v : Stats) (ms : List Measurement)
      → Stats.merge s (summary t) ≡ some u
      → Stats.merge s (summary (Stats.record_all t ms)) ≡ some u'
      → Alike u v
      → Alike u' (Stats.record_all v ms)
  unfolding Stats.record_all
  merge-record_all_from s t u u' v [] h h' a = subst (λ w. Alike w v) (some_inj (sym h ∙ h')) a
  merge-record_all_from s t u u' v (m ∷ ms) h h' a =
      let next = merged s (Stats.record_value t m.0 m.1) in
      merge-record_all_from s (Stats.record_value t m.0 m.1) next.0 u'
        (Stats.record_value v m.0 m.1) ms next.1 h'
        (merge-record_value s t u next.0 v m.0 m.1 h next.1 a)

  -- Merging a summary of some measurements into any summary does not fail, and gives the count, the
  -- minimum and the maximum that recording those measurements in it one by one would have given; its
  -- sums are those of the summary, to which the sums of the measurements are added at once.
  pub merge-record_all :
      (s : Stats) (ms : List Measurement)
      → (u : Stats) × (Stats.merge s (summary (Stats.record_all Stats.new ms)) ≡ some u)
        × Alike u (Stats.record_all s ms)
        × (u.total ≡ F.add s.total (sum value 0 ms))
        × (u.total_exclusive ≡ F.add s.total_exclusive (sum exclusive 0 ms))
        × (u.sum_of_squares ≡ F.add s.sum_of_squares (sum (λ m. F.square (value m)) 0 ms))
  merge-record_all s ms =
      let (u, h, total, total_exclusive, sum_of_squares) =
        merged s (Stats.record_all Stats.new ms) in
      let start = merged s Stats.new in
      let sums = new-Sums ms in
      (
        u,
        h,
        merge-record_all_from s Stats.new start.0 u s ms start.1 h (merge-new s start.0 start.1),
        total ∙ ap (F.add s.total) sums.total,
        total_exclusive ∙ ap (F.add s.total_exclusive) sums.total_exclusive,
        sum_of_squares ∙ ap (F.add s.sum_of_squares) sums.sum_of_squares,
      )
