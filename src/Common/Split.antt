-- ===== src/Common/Split.antt =====
-- Splitting, joining and trimming text.
use monis_agent.Common.{
  ℕ, ◌≡◌, refl, ap, ◌∙◌, Bool, true, false, not, ◌&&◌, ◌||◌, List, [], ◌∷◌, ◌++◌, arith, leb, ◌==◌,
  if◌then◌else◌, either, Bool-cases, inl, inr,
}
use monis_agent.Common.Text.{Text}

abbrev pub all_of : (ℕ → Bool) → Text → Bool
all_of p [] = true
all_of p (c ∷ s) = p c && all_of p s

abbrev pub lacks : ℕ → Text → Bool
lacks c = all_of (λ x. not (x == c))

pub all_of-append :
    (p : ℕ → Bool) (s t : Text) → all_of p s ≡ true → all_of p t ≡ true → all_of p (s ++ t) ≡ true
all_of-append p [] t hs ht = ht
all_of-append p (c ∷ s) t hs ht = ground (arith, hs, all_of-append p s t, ht)

-- What holds of every character that passes one test.
pub all_of-weaken :
    (p q : ℕ → Bool) (s : Text)
    → ((c : ℕ) → p c ≡ true → q c ≡ true)
    → all_of p s ≡ true
    → all_of q s ≡ true
all_of-weaken p q [] h e = refl
all_of-weaken p q (c ∷ s) h e = ground (arith, e, h c, all_of-weaken p q s h)

abbrev cons_head : ℕ → List Text → List Text
cons_head x [] = (x ∷ []) ∷ []
cons_head x (p ∷ ps) = (x ∷ p) ∷ ps

-- `split` at a character.
unfoldable pub split : ℕ → Text → List Text
split c [] = [] ∷ []
split c (x ∷ s) = let rest = split c s in if x == c then [] ∷ rest else cons_head x rest

-- `join` with a character.
unfoldable pub join : ℕ → List Text → Text
join c [] = []
join c (p ∷ []) = p
join c (p ∷ q ∷ ps) = p ++ c ∷ join c (q ∷ ps)

pub split-lacks : (c : ℕ) (p : Text) → lacks c p ≡ true → split c p ≡ p ∷ []
unfolding split
split-lacks c [] h = refl
split-lacks c (x ∷ p) h = ground (arith, h, split-lacks c p)

pub split-append : (c : ℕ) (p s : Text) → lacks c p ≡ true → split c (p ++ c ∷ s) ≡ p ∷ split c s
unfolding split
split-append c [] s h = ground arith
split-append c (x ∷ p) s h = ground (arith, h, split-append c p s)

abbrev pub AllLack : ℕ → List Text → Type 0
AllLack c [] = Unit
AllLack c (p ∷ ps) = (lacks c p ≡ true) × AllLack c ps

pub split-join :
    (c : ℕ) (p : Text) (ps : List Text) → AllLack c (p ∷ ps) → split c (join c (p ∷ ps)) ≡ p ∷ ps
unfolding join
split-join c p [] h = split-lacks c p h.0
split-join c p (q ∷ ps) h =
    split-append c p (join c (q ∷ ps)) h.0 ∙ ap (λ l. p ∷ l) (split-join c q ps h.1)

join-cons_head : (c x : ℕ) (ps : List Text) → join c (cons_head x ps) ≡ x ∷ join c ps
unfolding join
join-cons_head c x [] = refl
join-cons_head c x (p ∷ []) = refl
join-cons_head c x (p ∷ q ∷ ps) = refl

join-split_cons : (c : ℕ) (s : Text) → (p : Text) × (ps : List Text) × (split c s ≡ p ∷ ps)
unfolding split
join-split_cons c [] = ([], [], refl)
join-split_cons c (x ∷ s) = elim (Bool-cases (x == c)) [
  | inl same ↦ ([], split c s, rw same refl)
  | inr other ↦ let rest = join-split_cons c s in (x ∷ rest.0, rest.1, rw (other, rest.2) refl)
]

join_first : (c : ℕ) (s : Text) → join c ([] ∷ split c s) ≡ c ∷ join c (split c s)
unfolding join
join_first c s = let parts = join-split_cons c s in rw parts.2 refl

pub join-split : (c : ℕ) (s : Text) → join c (split c s) ≡ s
unfolding split join
join-split c [] = refl
join-split c (x ∷ s) = elim (Bool-cases (x == c)) [
  | inl same ↦
      rw same
        (join_first c s ∙ ap (λ t. c ∷ t) (join-split c s) ∙ ap (λ y. y ∷ s) (ground (arith, same)))
  | inr other ↦ rw other (join-cons_head c x (split c s) ∙ ap (λ t. x ∷ t) (join-split c s))
]

-- The white space and the line ends that `trim` removes.
unfoldable pub is_space : ℕ → Bool
is_space c =
    (leb 9 c && leb c 13)
    || (c == 32)
    || (c == 160)
    || (c == 5760)
    || (leb 8192 c && leb c 8202)
    || (c == 8232)
    || (c == 8233)
    || (c == 8239)
    || (c == 8287)
    || (c == 12288)
    || (c == 65279)

abbrev pub trim_start : Text → Text
trim_start [] = []
trim_start (c ∷ s) = let rest = trim_start s in if is_space c then rest else c ∷ s

abbrev pub put_back : ℕ → Text → Text
put_back c [] = if is_space c then [] else c ∷ []
put_back c (d ∷ s) = c ∷ d ∷ s

abbrev pub trim_end : Text → Text
trim_end [] = []
trim_end (c ∷ s) = put_back c (trim_end s)

-- `trim`
unfoldable pub trim : Text → Text
trim s = trim_end (trim_start s)

-- Text without white space.
abbrev pub is_solid : Text → Bool
is_solid = all_of (λ c. not (is_space c))

solid_back : (c : ℕ) (s : Text) → is_solid (c ∷ s) ≡ true → put_back c s ≡ c ∷ s
solid_back c [] h = ground (arith, h)
solid_back c (d ∷ s) h = refl

trim_end_solid : (s : Text) → is_solid s ≡ true → trim_end s ≡ s
trim_end_solid [] h = refl
trim_end_solid (c ∷ s) h = rw (trim_end_solid s (ground (arith, h))) (solid_back c s h)

trim_start_solid : (s : Text) → is_solid s ≡ true → trim_start s ≡ s
trim_start_solid [] h = refl
trim_start_solid (c ∷ s) h = ground (arith, h)

pub trim_solid : (s : Text) → is_solid s ≡ true → trim s ≡ s
unfolding trim
trim_solid s h = ap trim_end (trim_start_solid s h) ∙ trim_end_solid s h

cons_head-AllLack :
    (c x : ℕ) (ps : List Text) → (x == c) ≡ false → AllLack c ps → AllLack c (cons_head x ps)
cons_head-AllLack c x [] e h = (ground (arith, e), tt)
cons_head-AllLack c x (p ∷ ps) e h = (ground (arith, e, h.0), h.1)

pub split-AllLack : (c : ℕ) (s : Text) → AllLack c (split c s)
unfolding split
split-AllLack c [] = (refl, tt)
split-AllLack c (x ∷ s) =
    either (AllLack c) (x == c) (λ e. (refl, split-AllLack c s))
      (λ e. cons_head-AllLack c x (split c s) e (split-AllLack c s))
