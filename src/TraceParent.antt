-- ===== src/TraceParent.antt =====
-- lib/transaction/tracecontext.js: the header traceparent. The id that is generated where no segment is
-- in context is an argument. A header in a buffer is its text. The headers of the OpenTelemetry
-- bridge, whose ids come from a span context, are not modelled; logging and supportability metrics
-- are left out.
pub mod RoundTrip
use monis_agent.Common.{
  ℕ, zero, suc, ◌-◌, List, [], ◌∷◌, ◌++◌, Option, none, some, Bool, true, false, not, ◌&&◌, ◌||◌,
  leb, ◌==◌, length, replicate, if◌then◌else◌,
}
use monis_agent.Common.Text.{Text, codes, text_eq, to_lower_case}
use monis_agent.Common.Split.{all_of, split, join, trim}

abbrev pub dash : ℕ
dash = b'-'

-- [a-f0-9]
abbrev pub is_hex : ℕ → Bool
is_hex c = (leb b'a' c && leb c b'f') || (leb b'0' c && leb c b'9')

abbrev pub starts_with : Text → Text → Bool
starts_with [] t = true
starts_with (c ∷ s) [] = false
starts_with (c ∷ s) (d ∷ t) = (c == d) && starts_with s t

-- A regular expression /^((?!…)[a-f0-9]{n})$/.
unfoldable pub is_hex_text : ℕ → Text → Bool
is_hex_text n t = (length t == n) && all_of is_hex t

unfoldable pub version_valid : Text → Bool
unfolding is_hex_text
version_valid t = not (starts_with (codes "ff") t) && is_hex_text 2 t

unfoldable pub trace_id_valid : Text → Bool
unfolding is_hex_text
trace_id_valid t = not (starts_with (replicate 32 b'0') t) && is_hex_text 32 t

unfoldable pub parent_id_valid : Text → Bool
unfolding is_hex_text
parent_id_valid t = not (starts_with (replicate 16 b'0') t) && is_hex_text 16 t

unfoldable pub flags_valid : Text → Bool
unfolding is_hex_text
flags_valid t = is_hex_text 2 t

-- `W3C_TRACEPARENT_VERSION`
abbrev pub w3c_version : Text
w3c_version = codes "00"

pub record TraceParentInfo : Type 0 where
  pub version : Text
  pub trace_id : Text
  pub parent_id : Text
  pub flags : Text

unfoldable pub checked : Text → Text → Text → Text → Option TraceParentInfo
unfolding version_valid trace_id_valid parent_id_valid flags_valid
checked version trace_id parent_id flags =
    if version_valid version
      && trace_id_valid trace_id
      && parent_id_valid parent_id
      && flags_valid flags
    then some
        (record { version = version; trace_id = trace_id; parent_id = parent_id; flags = flags })
    else none

-- No extra data is allowed in this version. A part that is missing is not valid: `test` reads it as
-- the text undefined.
unfoldable pub parse_parts : List Text → Option TraceParentInfo
unfolding checked
parse_parts (version ∷ trace_id ∷ parent_id ∷ flags ∷ []) = checked version trace_id parent_id flags
parse_parts (version ∷ trace_id ∷ parent_id ∷ flags ∷ extra ∷ more) =
    if text_eq version w3c_version then none else checked version trace_id parent_id flags
parse_parts _ = none

-- `_validateAndParseTraceParentHeader`; an entry that is not valid is `none`.
unfoldable pub validate_and_parse : Text → Option TraceParentInfo
unfolding parse_parts
validate_and_parse [] = none
validate_and_parse (c ∷ header) = parse_parts (split dash (trim (c ∷ header)))

unfoldable pub pad_start : ℕ → Text → Text
pad_start n t = replicate (n - length t) b'0' ++ t

-- The trace id as it is sent.
unfoldable pub outgoing_trace_id : Text → Text
unfolding pad_start trace_id_valid
outgoing_trace_id trace_id =
    let padded = pad_start 32 trace_id in
    if not (text_eq padded trace_id) && not (trace_id_valid padded)
    then to_lower_case padded
    else padded

-- The id of the segment in context; an empty one is falsy.
abbrev pub or_generated : Text → Option Text → Text
or_generated generated none = generated
or_generated generated (some []) = generated
or_generated generated (some (c ∷ id)) = c ∷ id

unfoldable pub create_flags_hex : (sampled : Bool) → Text
create_flags_hex sampled = if sampled then codes "01" else codes "00"

unfoldable pub create_traceparent :
    (generated : Text) (trace_id : Text) (segment_id : Option Text) (sampled : Bool) → Text
unfolding join outgoing_trace_id create_flags_hex
create_traceparent generated trace_id segment_id sampled = join dash (
    w3c_version
    ∷ outgoing_trace_id trace_id
    ∷ or_generated generated segment_id
    ∷ create_flags_hex sampled
    ∷ [])
