-- ===== src/NormalizerRule/Unmatched.antt =====
-- A rule that does not match.
use monis_agent.Common.{
  ◌≡◌, refl, ap, sym, ◌∙◌, List, [], ◌∷◌, true, false, ◌||◌, some, Bool-cases, inl, inr, arith,
}
use monis_agent.Common.Text.{Text}
use monis_agent.NormalizerRule.{
  Engine, Rule, test, apply_map, map_segments, after_segment, apply_ignore, apply_replace, apply,
  apply-ignores, apply-replaces, get_segments, join_slash,
}
use monis_agent.NormalizerRule.Slashes.{join_slash-split_slash}

module _ (E : Engine) where
  apply_map-unmatched :
      (r : Rule E) (segment : Text)
      → (apply_map E r segment).0 ≡ false
      → (apply_map E r segment).1 ≡ segment
  unfolding apply_map
  apply_map-unmatched r [] e = refl
  apply_map-unmatched r (c ∷ s) e =
      elim (Bool-cases (test E (record r.pattern { last_index = 0 }) (c ∷ s)).0) [
        | inl found ↦ ground (arith, found, e)
        | inr missed ↦ rw missed refl
      ]

  -- A match is never forgotten.
  map_segments-matched :
      (segments : List Text) (r : Rule E)
      → r.matched ≡ true
      → (map_segments E r segments).1.matched ≡ true
  unfolding map_segments
  map_segments-matched [] r e = e
  map_segments-matched (s ∷ ss) r e = map_segments-matched ss (after_segment E r s) (rw e refl)

  map_segments-unmatched :
      (segments : List Text) (r : Rule E)
      → (map_segments E r segments).1.matched ≡ false
      → (map_segments E r segments).0 ≡ segments
  unfolding map_segments
  map_segments-unmatched [] r e = refl
  map_segments-unmatched (s ∷ ss) r e =
      let rest = map_segments-unmatched ss (after_segment E r s) e in
      elim (Bool-cases (r.matched || (apply_map E r s).0)) [
        | inl found ↦
            let kept = map_segments-matched ss (after_segment E r s) found in
            ground (arith, kept, e)
        | inr missed ↦ rw (rest, apply_map-unmatched r s (ground (arith, missed))) refl
      ]

  segments_joined : (r : Rule E) (input : Text) → join_slash (get_segments E r input) ≡ input
  unfolding get_segments join_slash
  segments_joined r input = elim (Bool-cases r.each_segment) [
    | inl each ↦ rw each (join_slash-split_slash input)
    | inr whole ↦ rw whole refl
  ]

  apply_ignore-unmatched :
      (r : Rule E) (input : Text)
      → (apply_ignore E r input).1.matched ≡ false
      → (apply_ignore E r input).0 ≡ some input
  unfolding apply_ignore
  apply_ignore-unmatched r input e = rw e refl

  apply_replace-unmatched :
      (r : Rule E) (input : Text)
      → (apply_replace E r input).1.matched ≡ false
      → (apply_replace E r input).0 ≡ some input
  unfolding apply_replace
  apply_replace-unmatched r input e =
      let segments =
        map_segments-unmatched (get_segments E r input) (record r { matched = false }) e in
      rw (segments, segments_joined r input) (ground arith)

  -- A rule that does not match, of either kind, leaves the path as it is.
  pub apply-unmatched :
      (r : Rule E) (input : Text)
      → (apply E r input).1.matched ≡ false
      → (apply E r input).0 ≡ some input
  apply-unmatched r input e = elim (Bool-cases r.ignore) [
    | inl ignores ↦
        let same = apply-ignores E r input ignores in
        ap (λ a. a.0) same ∙ apply_ignore-unmatched r input (ap (λ a. a.1.matched) (sym same) ∙ e)
    | inr replaces ↦
        let same = apply-replaces E r input replaces in
        ap (λ a. a.0) same ∙ apply_replace-unmatched r input (ap (λ a. a.1.matched) (sym same) ∙ e)
  ]
