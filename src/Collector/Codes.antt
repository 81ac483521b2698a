-- ===== src/Collector/Codes.antt =====
-- What the codes of the collector's answers say of the data that was sent.
use monis_agent.Common.{
  ℕ, ◌≡◌, refl, subst, List, [], ◌∷◌, none, Bool, true, false, ◌==◌, arith, Bool-cases, inl, inr,
}
use monis_agent.CollectorResponse
use monis_agent.Collector.{is_among, success_codes, failure_save_data, handle_response_code}

abbrev AllOf {ℓ} : (ℕ → Type ℓ) → List ℕ → Type ℓ
AllOf P [] = Unit
AllOf P (c ∷ codes) = P c × AllOf P codes

-- What holds of each of some codes holds of one among them.
is_among-AllOf {ℓ} :
    (P : ℕ → Type ℓ) (code : ℕ) (codes : List ℕ)
    → AllOf P codes
    → is_among code codes ≡ true
    → P code
is_among-AllOf P code [] h e = cc
is_among-AllOf P code (c ∷ codes) h e = elim (Bool-cases (code == c)) [
  | inl same ↦ let here : c ≡ code = ground (arith, same) in subst P here h.0
  | inr other ↦ is_among-AllOf P code codes h.1 (ground (arith, e, other))
]

-- Whether an answer with a code says to retain the data.
unfoldable pub retains : ℕ → Bool
retains code = (handle_response_code {P = Unit {0}} code none).0.retain_data

pub success-retains : (code : ℕ) → is_among code success_codes ≡ true → retains code ≡ false
unfolding retains handle_response_code CollectorResponse.success
success-retains code e =
    is_among-AllOf (λ c. retains c ≡ false) code success_codes (refl, (refl, tt)) e

pub save-retains : (code : ℕ) → is_among code failure_save_data ≡ true → retains code ≡ true
unfolding retains handle_response_code CollectorResponse.error
save-retains code e =
    is_among-AllOf (λ c. retains c ≡ true) code failure_save_data (refl, (refl, (refl, (refl, tt))))
      e
