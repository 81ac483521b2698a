-- ===== src/TraceState/Entry.antt =====
-- The entry of a header, and the characters in it.
use monis_agent.Common.{
  ℕ, ◌≡◌, refl, ap, ◌∙◌, List, [], ◌∷◌, Bool, true, not, ◌&&◌, ◌==◌, arith, either, and-true,
}
use monis_agent.Common.Text.{Text, codes}
use monis_agent.Common.Split.{
  all_of, all_of-append, all_of-weaken, lacks, is_space, is_solid, split, join, AllLack,
  split-lacks, split-append, split-join,
}
use monis_agent.TraceParent.{dash}
use monis_agent.TraceState.{comma, equals, nr_key, is_present, Context, sent_parts, nr_trace_state}

-- A character that a field of a header may have: no white space, dash, comma or equals sign.
abbrev pub is_plain : ℕ → Bool
is_plain c = not (is_space c) && not (c == dash) && not (c == comma) && not (c == equals)

abbrev pub ArePlain : List Text → Type 0
ArePlain [] = Unit
ArePlain (p ∷ ps) = (all_of is_plain p ≡ true) × ArePlain ps

plain-lacks :
    (c : ℕ) (p : Text)
    → ((x : ℕ) → is_plain x ≡ true → not (x == c) ≡ true)
    → all_of is_plain p ≡ true
    → lacks c p ≡ true
plain-lacks c p h e = all_of-weaken is_plain _ p h e

ArePlain-AllLack :
    (c : ℕ) (ps : List Text)
    → ((x : ℕ) → is_plain x ≡ true → not (x == c) ≡ true)
    → ArePlain ps
    → AllLack c ps
ArePlain-AllLack c [] h e = tt
ArePlain-AllLack c (p ∷ ps) h e = (plain-lacks c p h e.0, ArePlain-AllLack c ps h e.1)

no_dash : (x : ℕ) → is_plain x ≡ true → not (x == dash) ≡ true
no_dash x e = ground (arith, e)

-- A character of an entry: what joins the fields is one as well.
abbrev is_inner : ℕ → Bool
is_inner c = not (is_space c) && not (c == comma) && not (c == equals)

plain-inner : (x : ℕ) → is_plain x ≡ true → is_inner x ≡ true
plain-inner x e = ground (arith, e)

dash-inner : is_inner dash ≡ true
unfolding is_space
dash-inner = refl

join-inner : (ps : List Text) → ArePlain ps → all_of is_inner (join dash ps) ≡ true
unfolding join
join-inner [] h = refl
join-inner (p ∷ []) h = all_of-weaken is_plain is_inner p plain-inner h.0
join-inner (p ∷ q ∷ ps) h =
    all_of-append is_inner p _ (all_of-weaken is_plain is_inner p plain-inner h.0)
      (rw dash-inner (join-inner (q ∷ ps) h.1))

-- The text of a context has plain characters only, and what createTracestate needs is there.
pub record IsPlain (x : Context) : Type 0 where
  pub plain_key : all_of is_plain x.trusted_account_key ≡ true
  pub plain_account : all_of is_plain x.account_id ≡ true
  pub plain_application : all_of is_plain x.primary_application_id ≡ true
  pub plain_segment : all_of is_plain x.segment_id ≡ true
  pub plain_transaction : all_of is_plain x.transaction_id ≡ true
  pub plain_priority : all_of is_plain x.priority ≡ true
  pub plain_timestamp : all_of is_plain x.timestamp ≡ true
  pub is_complete :
      (is_present x.account_id
        && is_present x.primary_application_id
        && is_present x.trusted_account_key)
      ≡ true

abbrev IsPlainText : Text → Type 0
IsPlainText t = all_of is_plain t ≡ true

sent_parts-ArePlain : (x : Context) → IsPlain x → ArePlain (sent_parts x)
unfolding is_space
sent_parts-ArePlain x h = (
  refl,
  (
    refl,
    (
      h.plain_account,
      (
        h.plain_application,
        (
          either IsPlainText x.span_events_enabled (λ e. h.plain_segment) (λ e. refl),
          (
            either IsPlainText x.transaction_events_enabled (λ e. h.plain_transaction) (λ e. refl),
            (
              either IsPlainText x.sampled (λ e. refl) (λ e. refl),
              (h.plain_priority, (h.plain_timestamp, tt)),
            ),
          ),
        ),
      ),
    ),
  ),
)

value-inner : (x : Context) → IsPlain x → all_of is_inner (join dash (sent_parts x)) ≡ true
value-inner x h = join-inner (sent_parts x) (sent_parts-ArePlain x h)

nr_key-inner : (x : Context) → IsPlain x → all_of is_inner (nr_key x.trusted_account_key) ≡ true
unfolding is_space
nr_key-inner x h =
    all_of-append is_inner x.trusted_account_key (codes "@nr")
      (all_of-weaken is_plain is_inner x.trusted_account_key plain-inner h.plain_key) refl

-- What holds of an inner character and of the equals sign holds of the entry.
entry-all :
    (p : ℕ → Bool) (x : Context)
    → IsPlain x
    → ((c : ℕ) → is_inner c ≡ true → p c ≡ true)
    → p equals ≡ true
    → all_of p (nr_trace_state x) ≡ true
unfolding nr_trace_state
entry-all p x h inner e =
    all_of-append p (nr_key x.trusted_account_key) _
      (all_of-weaken is_inner p _ inner (nr_key-inner x h))
      (rw e (all_of-weaken is_inner p (join dash (sent_parts x)) inner (value-inner x h)))

pub entry-solid : (x : Context) → IsPlain x → is_solid (nr_trace_state x) ≡ true
unfolding is_space
entry-solid x h = entry-all _ x h (λ c e. (and-true (not (is_space c)) _ (and-true _ _ e).0).0) refl

pub entry-lacks : (x : Context) → IsPlain x → lacks comma (nr_trace_state x) ≡ true
entry-lacks x h = entry-all _ x h (λ c e. ground (arith, e)) refl

pub entry-split :
    (x : Context)
    → IsPlain x
    → split equals (nr_trace_state x) ≡ nr_key x.trusted_account_key ∷ join dash (sent_parts x) ∷ []
unfolding nr_trace_state
entry-split x h =
    split-append equals (nr_key x.trusted_account_key) _ (
      all_of-weaken is_inner (λ c. not (c == equals)) (nr_key x.trusted_account_key)
        (λ c e. ground (arith, e)) (nr_key-inner x h))
    ∙ ap (λ l. nr_key x.trusted_account_key ∷ l)
        (split-lacks equals (join dash (sent_parts x)) (
          all_of-weaken is_inner (λ c. not (c == equals)) (join dash (sent_parts x))
            (λ c e. ground (arith, e)) (value-inner x h)))

pub sent_split : (x : Context) → IsPlain x → split dash (join dash (sent_parts x)) ≡ sent_parts x
sent_split x h =
    split-join dash _ _ (ArePlain-AllLack dash (sent_parts x) no_dash (sent_parts-ArePlain x h))
