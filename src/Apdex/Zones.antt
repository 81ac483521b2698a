-- ===== src/Apdex/Zones.antt =====
-- The three zones of an Apdex summary.
use monis_agent.Common.{
  ℕ, zero, suc, ◌+◌, ◌*◌, ◌≡◌, refl, ap, subst, ◌∙◌, List, [], ◌∷◌, Option, none, some, Bool, ◌&&◌,
  not, leb, arith, if◌then◌else◌,
}
use monis_agent.Apdex
use monis_agent.Apdex.{ApdexStats, threshold}

abbrev pub count : (ℕ → Bool) → List ℕ → ℕ
count p [] = 0
count p (t ∷ times) = (if p t then 1 else 0) + count p times

-- The limit that counts: a positive override, or the summary's own.
abbrev pub limit_of : Option ℕ → ℕ → ℕ
limit_of none own = own
limit_of (some zero) own = own
limit_of (some (suc n)) own = suc n

-- The summary `s'` of `s` and of the times: a time is satisfying up to the threshold, tolerable up to
-- four times that, and frustrating beyond.
pub record Zones (limit : ℕ) (s s' : ApdexStats) (times : List ℕ) : Type 0 where
  pub same_t : s'.apdex_t ≡ s.apdex_t
  pub satisfying : s'.satisfying ≡ s.satisfying + count (λ t. leb t limit) times
  pub tolerating :
      s'.tolerating ≡ s.tolerating + count (λ t. not (leb t limit) && leb t (4 * limit)) times
  pub frustrating : s'.frustrating ≡ s.frustrating + count (λ t. not (leb t (4 * limit))) times

record_value-Zones :
    (s : ApdexStats) (o : Option ℕ) (t : ℕ)
    → Zones (threshold s o) s (Apdex.record_value s t o) (t ∷ [])
unfolding Apdex.record_value
record_value-Zones s o t = ground arith

threshold-limit_of : (s : ApdexStats) (o : Option ℕ) → threshold s o ≡ limit_of o s.apdex_t
threshold-limit_of s none = refl
threshold-limit_of s (some zero) = refl
threshold-limit_of s (some (suc n)) = ground arith

then-Zones :
    (s s₁ s₂ : ApdexStats) (o : Option ℕ) (t : ℕ) (times : List ℕ)
    → Zones (threshold s o) s s₁ (t ∷ [])
    → Zones (limit_of o s₁.apdex_t) s₁ s₂ times
    → Zones (limit_of o s.apdex_t) s s₂ (t ∷ times)
then-Zones s s₁ s₂ o t times recorded rest =
    let first = (rw (threshold-limit_of s o) at recorded) in
    let rest = subst (λ limit. Zones limit s₁ s₂ times) (ap (limit_of o) first.same_t) rest in
    record {
      same_t = rest.same_t ∙ first.same_t;
      satisfying = omega (arith, first.satisfying, rest.satisfying);
      tolerating = omega (arith, first.tolerating, rest.tolerating);
      frustrating = omega (arith, first.frustrating, rest.frustrating);
    }

-- Times recorded under one override, or none, are counted each in exactly one zone, by the override
-- if it is a positive number and by the summary's own threshold otherwise.
pub record_all-Zones :
    (times : List ℕ) (s : ApdexStats) (o : Option ℕ)
    → Zones (limit_of o s.apdex_t) s (Apdex.record_all s o times) times
unfolding Apdex.record_all
record_all-Zones [] s o = omega arith
record_all-Zones (t ∷ times) s o =
    let s₁ = Apdex.record_value s t o in
    then-Zones s s₁ (Apdex.record_all s₁ o times) o t times (record_value-Zones s o t)
      (record_all-Zones times s₁ o)

apdex_merge-record_value :
    (s t : ApdexStats) (o : Option ℕ) (x : ℕ)
    → t.apdex_t ≡ s.apdex_t
    → (Apdex.merge s (Apdex.record_value t x o) ≡ Apdex.record_value (Apdex.merge s t) x o)
      × ((Apdex.record_value t x o).apdex_t ≡ s.apdex_t)
unfolding Apdex.merge Apdex.record_value
apdex_merge-record_value s t o x e = ground arith

-- Merging a summary of some times into any other with the same threshold gives what recording those
-- times in it one by one would have given.
pub apdex_merge-record_all :
    (s t : ApdexStats) (o : Option ℕ) (times : List ℕ)
    → t.apdex_t ≡ s.apdex_t
    → Apdex.merge s (Apdex.record_all t o times) ≡ Apdex.record_all (Apdex.merge s t) o times
unfolding Apdex.record_all
apdex_merge-record_all s t o [] e = refl
apdex_merge-record_all s t o (x ∷ times) e =
    let (step, same) = apdex_merge-record_value s t o x e in
    apdex_merge-record_all s (Apdex.record_value t x o) o times same
    ∙ ap (λ u. Apdex.record_all u o times) step
