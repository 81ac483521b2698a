-- ===== src/AttributeFilter/Coherent.antt =====
-- The cache of the filter does not change its answers.
use monis_agent.Common.{
  ℕ, ◌≡◌, refl, ap, sym, subst, ◌∙◌, List, [], ◌∷◌, Option, none, some, Bool, true, false, not, ltb,
  ◌==◌, ==_iff, Bool-cases, Option-cases, inl, inr, if◌then◌else◌,
}
use monis_agent.Common.Text.{Text, text_eq, text_eq→eq}
use monis_agent.AttributeFilter.{
  Destination, trans_event, trans_trace, error_event, browser_event, span_event, trans_segment, bit,
  Mask, put, Verdict, RulePair, Settings, Filter, lookup, update_destinations, calculate, remember,
  verdict_on,
}

abbrev of_bit : ℕ → Destination
of_bit n =
    if n == 0
    then trans_event
    else if n == 1
    then trans_trace
    else if n == 2
    then error_event
    else if n == 3
    then browser_event
    else if n == 4
    then span_event
    else trans_segment

of_bit-bit : (d : Destination) → of_bit (bit d) ≡ d
of_bit-bit trans_event = refl
of_bit-bit trans_trace = refl
of_bit-bit error_event = refl
of_bit-bit browser_event = refl
of_bit-bit span_event = refl
of_bit-bit trans_segment = refl

pub same_bit : (d e : Destination) → (bit d == bit e) ≡ true → d ≡ e
same_bit d e h = sym (of_bit-bit d) ∙ ap of_bit ((==_iff (bit d) (bit e)).0 h) ∙ of_bit-bit e

module _ (exact_test : List Text → Text → Bool) (wildcard_test : List Text → Text → Option ℕ) where
  -- What the rules say of a destination, without the cache.
  abbrev pub verdict_of : Settings → Destination → Text → Option Verdict
  verdict_of s d key = elim (s.rules d) [
    | none ↦ none
    | some rules ↦ some (calculate exact_test wildcard_test s rules key)
  ]

  -- The mask after the rules of each destination are applied to it, without the cache.
  abbrev pub decide : Settings → Destination → Mask → Text → Mask
  decide s d mask key =
      if not (s.enabled_destinations d) then put d false mask else elim (verdict_of s d key) [
        | none ↦ mask
        | some verdict ↦ update_destinations mask d verdict
      ]

  abbrev pub uncached_loop : Settings → List Destination → Mask → Text → Mask
  uncached_loop s [] mask key = mask
  uncached_loop s (d ∷ scope) mask key = uncached_loop s scope (decide s d mask key) key

  abbrev pub uncached : Settings → List Destination → Mask → Text → Mask
  uncached s scope mask key =
      if not s.config.enabled then (λ d. false) else uncached_loop s scope mask key

  -- An enabled destination has rules, and a cache that holds only what they say.
  abbrev IsCached : Filter → Destination → Type 0
  IsCached f d =
      (entries : List (Text × Verdict)) × (f.cache d ≡ some entries)
      × ((key : Text) (v : Verdict)
          → lookup key entries ≡ some v
          → verdict_of f.settings d key ≡ some v)

  abbrev pub IsCoherent : Filter → Type 0
  IsCoherent f =
      (d : Destination)
      → f.settings.enabled_destinations d ≡ true
      → ((rules : RulePair) × (f.settings.rules d ≡ some rules)) × IsCached f d

  -- An entry in front of others that are right.
  entry-says :
      (s : Settings) (d : Destination) (entries : List (Text × Verdict)) (key : Text) (v : Verdict)
      → verdict_of s d key ≡ some v
      → ((k : Text) (w : Verdict) → lookup k entries ≡ some w → verdict_of s d k ≡ some w)
      → (k : Text) (w : Verdict) → lookup k ((key, v) ∷ entries) ≡ some w
      → verdict_of s d k ≡ some w
  entry-says s d entries key v says older k w hit = elim (Bool-cases (text_eq k key)) [
    | inl same ↦
        ap (verdict_of s d) (text_eq→eq k key same)
        ∙ says
        ∙ sym (ap (λ b. if b then some v else lookup k entries) same)
        ∙ hit
    | inr other ↦ older k w (sym (ap (λ b. if b then some v else lookup k entries) other) ∙ hit)
  ]

  remember-IsCoherent :
      (f : Filter) (d : Destination) (key : Text) (v : Verdict)
      → IsCoherent f
      → (cached : IsCached f d) → verdict_of f.settings d key ≡ some v
      → IsCoherent (remember exact_test wildcard_test f d cached.0 key v)
  remember-IsCoherent f d key v coherent cached says =
      elim (Bool-cases (ltb f.cached_count f.settings.config.filter_cache_limit)) [
        | inl room ↦ rw room (λ e enabled. (
          (coherent e enabled).0,
          elim (Bool-cases (bit e == bit d)) [
            | inl same ↦ rw same (
              (key, v) ∷ cached.0,
              refl,
              subst
                  (λ (x : Destination).
                    (k : Text) (w : Verdict)
                    → lookup k ((key, v) ∷ cached.0) ≡ some w
                    → verdict_of f.settings x k ≡ some w)
                  (sym (same_bit e d same)) (entry-says f.settings d cached.0 key v says cached.2),
            )
            | inr other ↦ rw other (coherent e enabled).1
          ],
        ))
        | inr full ↦ rw full coherent
      ]

  remember-settings :
      (f : Filter) (d : Destination) (entries : List (Text × Verdict)) (key : Text) (v : Verdict)
      → (remember exact_test wildcard_test f d entries key v).settings ≡ f.settings
  remember-settings f d entries key v =
      elim (Bool-cases (ltb f.cached_count f.settings.config.filter_cache_limit)) [
        | inl room ↦ rw room refl
        | inr full ↦ rw full refl
      ]

  -- What a step yields: the verdict of the rules, and a filter that is coherent and has the same settings.
  abbrev Yields : Filter → Destination → Text → Verdict → Type 0
  Yields f d key v =
      (g : Filter) × (verdict_on exact_test wildcard_test f d key ≡ some (v, g))
      × (g.settings ≡ f.settings)
      × IsCoherent g

  pub verdict_on-Yields :
      (f : Filter) (d : Destination) (key : Text)
      → IsCoherent f
      → f.settings.enabled_destinations d ≡ true
      → (v : Verdict) × (verdict_of f.settings d key ≡ some v) × Yields f d key v
  unfolding verdict_on
  verdict_on-Yields f d key coherent enabled =
      let here = coherent d enabled in
      let entries = here.1.0 in
      elim (Option-cases (lookup key entries)) [
        | inr hit ↦ (
          hit.0,
          here.1.2 key hit.0 hit.1,
          (f, rw (verdict_on, here.1.1, hit.1) refl, refl, coherent),
        )
        | inl miss ↦
            let v = calculate exact_test wildcard_test f.settings here.0.0 key in
            let says : verdict_of f.settings d key ≡ some v = rw (verdict_of, here.0.1) refl in
            (
              v,
              says,
              (
                remember exact_test wildcard_test f d entries key v,
                rw (verdict_on, here.1.1, miss, here.0.1) refl,
                remember-settings f d entries key v,
                remember-IsCoherent f d key v coherent here.1 says,
              ),
            )
      ]
