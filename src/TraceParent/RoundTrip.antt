-- ===== src/TraceParent/RoundTrip.antt =====
-- What is read in a header that was written, and what was written where a header is read.
use monis_agent.Common.{
  ℕ, ◌≡◌, refl, ap, sym, ◌∙◌, List, [], ◌∷◌, Option, none, some, Bool, true, false, not, ◌&&◌, ◌==◌,
  length, replicate, if◌then◌else◌, arith, and-true, none-some, false-true, Bool-cases, inl, inr,
}
use monis_agent.Common.Text.{Text, codes, text_eq, text_eq_refl}
use monis_agent.Common.Split.{
  all_of, all_of-append, all_of-weaken, lacks, is_space, is_solid, split, join, trim, trim_solid,
  split-join, join-split,
}
use monis_agent.TraceParent.{
  dash, is_hex, starts_with, is_hex_text, version_valid, trace_id_valid, parent_id_valid,
  flags_valid, w3c_version, TraceParentInfo, checked, parse_parts, validate_and_parse,
  outgoing_trace_id, or_generated, create_flags_hex, create_traceparent,
}

hex-lacks : (t : Text) → all_of is_hex t ≡ true → lacks dash t ≡ true
hex-lacks t h = all_of-weaken is_hex _ t (λ c e. ground (arith, e)) h

hex-solid : (t : Text) → all_of is_hex t ≡ true → is_solid t ≡ true
unfolding is_space
hex-solid t h = all_of-weaken is_hex _ t (λ c e. ground (arith, e)) h

hex_of : (n : ℕ) (t : Text) → is_hex_text n t ≡ true → all_of is_hex t ≡ true
unfolding is_hex_text
hex_of n t h = (and-true (length t == n) _ h).1

head-lacks : (n : ℕ) (t : Text) → is_hex_text n t ≡ true → lacks dash t ≡ true
head-lacks n t h = hex-lacks t (hex_of n t h)

-- The parts of a header that is valid.
pub record AreValid (version trace_id parent_id flags : Text) : Type 0 where
  valid_version : version_valid version ≡ true
  valid_trace_id : trace_id_valid trace_id ≡ true
  valid_parent_id : parent_id_valid parent_id ≡ true
  valid_flags : flags_valid flags ≡ true

accepted {ℓ} :
    {A : Type ℓ} (b : Bool) {x y : A} → (if b then some x else none) ≡ some y → (b ≡ true) × (x ≡ y)
accepted true e = (refl, ground (arith, e))
accepted false e = cc

four_true :
    (a b c d : Bool) → (a && b && c && d) ≡ true → (a ≡ true) × (b ≡ true) × (c ≡ true) × (d ≡ true)
four_true true true true true e = (refl, refl, refl, refl)
four_true true true true false e = cc
four_true true true false d e = cc
four_true true false c d e = cc
four_true false b c d e = cc

checked-AreValid :
    (version trace_id parent_id flags : Text) (info : TraceParentInfo)
    → checked version trace_id parent_id flags ≡ some info
    → AreValid version trace_id parent_id flags
      × (info
          ≡ record { version = version; trace_id = trace_id; parent_id = parent_id; flags = flags })
unfolding checked
checked-AreValid version trace_id parent_id flags info e =
    let ok =
      accepted
        (version_valid version
          && trace_id_valid trace_id
          && parent_id_valid parent_id
          && flags_valid flags)
        e in
    let all =
      four_true (version_valid version) (trace_id_valid trace_id) (parent_id_valid parent_id)
        (flags_valid flags) ok.0 in
    (
      record {
        valid_version = all.0;
        valid_trace_id = all.1;
        valid_parent_id = all.2;
        valid_flags = all.3;
      },
      sym ok.1,
    )

AreValid-checked :
    (version trace_id parent_id flags : Text)
    → AreValid version trace_id parent_id flags
    → checked version trace_id parent_id flags
      ≡ some
          (record { version = version; trace_id = trace_id; parent_id = parent_id; flags = flags })
unfolding checked
AreValid-checked version trace_id parent_id flags h =
    rw (h.valid_version, h.valid_trace_id, h.valid_parent_id, h.valid_flags) refl

join-solid :
    (a b c d : Text)
    → is_solid a ≡ true
    → is_solid b ≡ true
    → is_solid c ≡ true
    → is_solid d ≡ true
    → is_solid (join dash (a ∷ b ∷ c ∷ d ∷ [])) ≡ true
unfolding join is_space
join-solid a b c d ha hb hc hd =
    all_of-append _ a _ ha (all_of-append _ b _ hb (all_of-append _ c (dash ∷ d) hc hd))

hex_of_version : (t : Text) → version_valid t ≡ true → all_of is_hex t ≡ true
unfolding version_valid
hex_of_version t h = hex_of 2 t (and-true (not (starts_with (codes "ff") t)) _ h).1

hex_of_trace_id : (t : Text) → trace_id_valid t ≡ true → all_of is_hex t ≡ true
unfolding trace_id_valid
hex_of_trace_id t h = hex_of 32 t (and-true (not (starts_with (replicate 32 b'0') t)) _ h).1

hex_of_parent_id : (t : Text) → parent_id_valid t ≡ true → all_of is_hex t ≡ true
unfolding parent_id_valid
hex_of_parent_id t h = hex_of 16 t (and-true (not (starts_with (replicate 16 b'0') t)) _ h).1

hex_of_flags : (t : Text) → flags_valid t ≡ true → all_of is_hex t ≡ true
unfolding flags_valid
hex_of_flags t h = hex_of 2 t h

parse_four :
    (t p f : Text)
    → AreValid w3c_version t p f
    → parse_parts (w3c_version ∷ t ∷ p ∷ f ∷ [])
      ≡ some (record { version = w3c_version; trace_id = t; parent_id = p; flags = f })
unfolding parse_parts
parse_four t p f h = AreValid-checked w3c_version t p f h

-- A header made of valid parts is read as those parts.
joined-checked :
    (trace_id parent_id flags : Text)
    → AreValid w3c_version trace_id parent_id flags
    → validate_and_parse (join dash (w3c_version ∷ trace_id ∷ parent_id ∷ flags ∷ []))
      ≡ some (record {
        version = w3c_version;
        trace_id = trace_id;
        parent_id = parent_id;
        flags = flags;
      })
unfolding validate_and_parse join
joined-checked trace_id parent_id flags h =
    let t = hex_of_trace_id trace_id h.valid_trace_id in
    let p = hex_of_parent_id parent_id h.valid_parent_id in
    let f = hex_of_flags flags h.valid_flags in
    ap (λ l. parse_parts (split dash l))
      (trim_solid (join dash (w3c_version ∷ trace_id ∷ parent_id ∷ flags ∷ [])) (
        join-solid w3c_version trace_id parent_id flags
          (hex-solid w3c_version (hex_of_version w3c_version h.valid_version))
          (hex-solid trace_id t) (hex-solid parent_id p) (hex-solid flags f)))
    ∙ ap parse_parts (
        split-join dash w3c_version (trace_id ∷ parent_id ∷ flags ∷ [])
          (refl, (hex-lacks trace_id t, (hex-lacks parent_id p, (hex-lacks flags f, tt)))))
    ∙ parse_four trace_id parent_id flags h

flags_valid-create : (sampled : Bool) → flags_valid (create_flags_hex sampled) ≡ true
unfolding flags_valid is_hex_text create_flags_hex
flags_valid-create true = refl
flags_valid-create false = refl

version_valid-w3c : version_valid w3c_version ≡ true
unfolding version_valid is_hex_text
version_valid-w3c = refl

-- The header that is created is accepted, and the ids and flags are found in it, provided that the trace
-- id as it is sent and the parent id are valid.
pub validate_and_parse-create_traceparent :
    (generated trace_id : Text) (segment_id : Option Text) (sampled : Bool)
    → trace_id_valid (outgoing_trace_id trace_id) ≡ true
    → parent_id_valid (or_generated generated segment_id) ≡ true
    → validate_and_parse (create_traceparent generated trace_id segment_id sampled)
      ≡ some (record {
        version = w3c_version;
        trace_id = outgoing_trace_id trace_id;
        parent_id = or_generated generated segment_id;
        flags = create_flags_hex sampled;
      })
unfolding create_traceparent
validate_and_parse-create_traceparent generated trace_id segment_id sampled ht hp =
    joined-checked (outgoing_trace_id trace_id) (or_generated generated segment_id)
      (create_flags_hex sampled)
      (record {
        valid_version = version_valid-w3c;
        valid_trace_id = ht;
        valid_parent_id = hp;
        valid_flags = flags_valid-create sampled;
      })

-- What a header of this version is read as.
abbrev Reads : List Text → TraceParentInfo → Type 0
Reads parts info =
    (parts ≡ info.version ∷ info.trace_id ∷ info.parent_id ∷ info.flags ∷ [])
    × AreValid info.version info.trace_id info.parent_id info.flags

parse_parts-Reads :
    (parts : List Text) (info : TraceParentInfo)
    → parse_parts parts ≡ some info
    → info.version ≡ w3c_version
    → Reads parts info
unfolding parse_parts
parse_parts-Reads (v ∷ t ∷ p ∷ f ∷ []) info e same =
    let ok = checked-AreValid v t p f info e in rw (ok.1) (refl, ok.0)
parse_parts-Reads (v ∷ t ∷ p ∷ f ∷ x ∷ more) info e same =
    elim (Bool-cases (text_eq v w3c_version)) [
      | inl this ↦ absurd (none-some (ap (λ b. if b then none else checked v t p f) (sym this) ∙ e))
      | inr other ↦
          let ok =
            checked-AreValid v t p f info
              (ap (λ b. if b then none else checked v t p f) (sym other) ∙ e) in
          let is : v ≡ w3c_version = sym (ap (λ i. i.version) ok.1) ∙ same in
          absurd
            (false-true (sym other ∙ ap (λ w. text_eq w w3c_version) is ∙ text_eq_refl w3c_version))
    ]
parse_parts-Reads [] info e same = cc
parse_parts-Reads (v ∷ []) info e same = cc
parse_parts-Reads (v ∷ t ∷ []) info e same = cc
parse_parts-Reads (v ∷ t ∷ p ∷ []) info e same = cc

-- A header of this version that is accepted is, but for white space around it, what its parts print as;
-- they have their lengths, are made of small hexadecimal digits, and the ids are not zero.
pub validate_and_parse-printed :
    (header : Text) (info : TraceParentInfo)
    → validate_and_parse header ≡ some info
    → info.version ≡ w3c_version
    → (join dash (info.version ∷ info.trace_id ∷ info.parent_id ∷ info.flags ∷ []) ≡ trim header)
      × AreValid info.version info.trace_id info.parent_id info.flags
unfolding validate_and_parse
validate_and_parse-printed [] info e same = cc
validate_and_parse-printed (c ∷ header) info e same =
    let read = parse_parts-Reads (split dash (trim (c ∷ header))) info e same in
    (ap (join dash) (sym read.0) ∙ join-split dash (trim (c ∷ header)), read.1)
