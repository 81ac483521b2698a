-- ===== src/Common/Trimmed.antt =====
-- What trimming leaves of a text.
use monis_agent.Common.{ℕ, ◌≡◌, refl, ap, ◌∙◌, Bool, true, false, [], ◌∷◌, either, and-true}
use monis_agent.Common.Text.{Text}
use monis_agent.Common.Split.{all_of, is_space, trim_start, trim_end, put_back, trim}

all_of-trim_start : (p : ℕ → Bool) (s : Text) → all_of p s ≡ true → all_of p (trim_start s) ≡ true
all_of-trim_start p [] h = refl
all_of-trim_start p (c ∷ s) h =
    either (λ t. all_of p t ≡ true) (is_space c) (λ e. all_of-trim_start p s (and-true (p c) _ h).1)
      (λ e. h)

all_of-put_back :
    (p : ℕ → Bool) (c : ℕ) (s : Text)
    → p c ≡ true
    → all_of p s ≡ true
    → all_of p (put_back c s) ≡ true
all_of-put_back p c [] hc hs =
    either (λ t. all_of p t ≡ true) (is_space c) (λ e. refl) (λ e. rw hc refl)
all_of-put_back p c (d ∷ s) hc hs = rw hc hs

all_of-trim_end : (p : ℕ → Bool) (s : Text) → all_of p s ≡ true → all_of p (trim_end s) ≡ true
all_of-trim_end p [] h = refl
all_of-trim_end p (c ∷ s) h =
    let both = and-true (p c) _ h in
    all_of-put_back p c (trim_end s) both.0 (all_of-trim_end p s both.1)

pub all_of-trim : (p : ℕ → Bool) (s : Text) → all_of p s ≡ true → all_of p (trim s) ≡ true
unfolding trim
all_of-trim p s h = all_of-trim_end p (trim_start s) (all_of-trim_start p s h)

trim_end-put_back : (c : ℕ) (s : Text) → trim_end s ≡ s → trim_end (put_back c s) ≡ put_back c s
trim_end-put_back c [] h = either (λ t. trim_end t ≡ t) (is_space c) (λ e. refl) (λ e. rw e refl)
trim_end-put_back c (d ∷ s) h = ap (put_back c) h

trim_end-trim_end : (s : Text) → trim_end (trim_end s) ≡ trim_end s
trim_end-trim_end [] = refl
trim_end-trim_end (c ∷ s) = trim_end-put_back c (trim_end s) (trim_end-trim_end s)

-- A text that does not begin with white space.
abbrev IsFlush : Text → Type 0
IsFlush [] = Unit
IsFlush (c ∷ s) = is_space c ≡ false

trim_start-IsFlush : (s : Text) → IsFlush (trim_start s)
trim_start-IsFlush [] = tt
trim_start-IsFlush (c ∷ s) = either IsFlush (is_space c) (λ e. trim_start-IsFlush s) (λ e. e)

IsFlush-trim_start : (s : Text) → IsFlush s → trim_start s ≡ s
IsFlush-trim_start [] h = refl
IsFlush-trim_start (c ∷ s) h = rw h refl

put_back-IsFlush : (c : ℕ) (s : Text) → is_space c ≡ false → IsFlush (put_back c s)
put_back-IsFlush c [] h = rw h h
put_back-IsFlush c (d ∷ s) h = h

trim_end-IsFlush : (s : Text) → IsFlush s → IsFlush (trim_end s)
trim_end-IsFlush [] h = tt
trim_end-IsFlush (c ∷ s) h = put_back-IsFlush c (trim_end s) h

pub trim-trim : (s : Text) → trim (trim s) ≡ trim s
unfolding trim
trim-trim s =
    ap trim_end (
      IsFlush-trim_start (trim_end (trim_start s))
        (trim_end-IsFlush (trim_start s) (trim_start-IsFlush s)))
    ∙ trim_end-trim_end (trim_start s)
