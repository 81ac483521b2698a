-- ===== src/NormalizerRule.antt =====
-- lib/metrics/normalizer/rule.js. No two rules share a pattern. The regular expressions of the host are
-- an interface; a pattern keeps its `lastIndex`, which `test` moves if the flags have a g. The sticky
-- flag is left out. A missing property of a rule's JSON reads like false, 0 or the empty text, as the
-- constructor's `||` has it. A precedence is a finite number, in units of the least positive one,
-- 2^-1074, of which each is a whole multiple.
pub mod Slashes
pub mod Unmatched
pub mod Alternating
use monis_agent.Common.{
  ℕ, zero, suc, ◌≡◌, ap, List, [], ◌∷◌, ◌++◌, Option, none, some, Bool, true, false, not, ◌&&◌,
  ◌||◌, ◌==◌, if◌then◌else◌,
}
use monis_agent.Common.Int.{ℤ, pos}
use monis_agent.Common.Text.{Text, codes}

pub record Engine : Type 1 where
  pub Program : Type 0
  -- `new RegExp(source, flags)`, which may throw.
  pub compile : Text → Text → Option Program
  -- A new expression with the source of a given one.
  pub with_flags : Program → Text → Program
  -- The literal /^$/.
  pub only_empty : Program
  -- Where the first match ends that begins at the index or after it.
  pub find_from : Program → Text → ℕ → Option ℕ
  -- `segment.replace(pattern, replacement)`
  pub replace : Program → Text → Text → Text

abbrev slash : ℕ
slash = b'/'

abbrev prepend : ℕ → List Text → List Text
prepend c [] = (c ∷ []) ∷ []
prepend c (s ∷ ss) = (c ∷ s) ∷ ss

-- `input.split('/')`
unfoldable pub split_slash : Text → List Text
split_slash [] = [] ∷ []
split_slash (c ∷ s) = let rest = split_slash s in if c == slash then [] ∷ rest else prepend c rest

-- `segments.join('/')`
unfoldable pub join_slash : List Text → Text
join_slash [] = []
join_slash (s ∷ []) = s
join_slash (s ∷ t ∷ ss) = s ++ slash ∷ join_slash (t ∷ ss)

abbrev contains : Text → ℕ → Bool
contains [] c = false
contains (d ∷ s) c = (d == c) || contains s c

abbrev contains_all : Text → Text → Bool
contains_all present [] = true
contains_all present (c ∷ more) = contains present c && contains_all present more

abbrev or_text : Text → Text → Text
or_text [] default = default
or_text (c ∷ s) default = c ∷ s

-- `replaceReplacer`
unfoldable pub replace_replacer : Text → Text
replace_replacer [] = []
replace_replacer (c ∷ s) = (if c == b'\\' then b'$' else c) ∷ replace_replacer s

abbrev starts_with_slash : Text → Bool
starts_with_slash [] = false
starts_with_slash (c ∷ s) = c == slash

module _ (E : Engine) where
  pub record Pattern : Type 0 where
    pub program : E.Program
    pub flags : Text
    pub last_index : ℕ

  pub data Expression : Type 0 where
    regexp : Pattern → Expression
    text : Text → Expression

  pub record RuleJson : Type 0 where
    pub each_segment : Bool
    pub eval_order : ℤ
    pub terminate_chain : Bool
    pub replacement : Text
    pub replace_all : Bool
    pub ignore : Bool
    pub match_expression : Expression

  pub record Rule : Type 0 where
    pub each_segment : Bool
    pub precedence : ℤ
    pub is_terminal : Bool
    pub replacement : Text
    pub replace_all : Bool
    pub ignore : Bool
    pub matched : Bool
    pub pattern : Pattern

  -- `_addRegExpFlags`
  abbrev missing_flags : Text → Text → Text
  missing_flags present [] = present
  missing_flags present (c ∷ more) =
      missing_flags (if contains present c then present else present ++ c ∷ []) more

  unfoldable pub add_reg_exp_flags : Pattern → Text → Pattern
  add_reg_exp_flags re more =
      let all_flags = missing_flags re.flags more in
      let found_missing = not (contains_all re.flags more) in
      if found_missing
      then (record {
        program = E.with_flags re.program all_flags;
        flags = all_flags;
        last_index = 0;
      })
      else re

  abbrev modifiers : Bool → Text
  modifiers replace_all = if replace_all then b'i' ∷ b'g' ∷ [] else b'i' ∷ []

  unfoldable pub compile_pattern : Expression → Bool → Pattern
  unfolding add_reg_exp_flags
  compile_pattern (regexp re) replace_all = add_reg_exp_flags re (modifiers replace_all)
  compile_pattern (text source) replace_all =
      elim (E.compile (or_text source (codes "^$")) (modifiers replace_all)) [
        | none ↦ record { program = E.only_empty; flags = []; last_index = 0 }
        | some program ↦ record { program = program; flags = modifiers replace_all; last_index = 0 }
      ]

  unfoldable pub new : Option RuleJson → Rule
  unfolding compile_pattern replace_replacer
  new none = record {
    each_segment = false;
    precedence = pos 0;
    is_terminal = false;
    replacement = replace_replacer (codes "$0");
    replace_all = false;
    ignore = false;
    matched = false;
    pattern = compile_pattern (text []) false;
  }
  new (some json) = record {
    each_segment = json.each_segment;
    precedence = json.eval_order;
    is_terminal = json.terminate_chain;
    replacement = replace_replacer (or_text json.replacement (codes "$0"));
    replace_all = json.replace_all;
    ignore = json.ignore;
    matched = false;
    pattern = compile_pattern json.match_expression json.replace_all;
  }

  abbrev pub is_global : Pattern → Bool
  is_global p = contains p.flags b'g'

  -- `pattern.test(input)`, and the pattern afterwards.
  unfoldable pub test : Pattern → Text → Bool × Pattern
  test p input = elim (E.find_from p.program input (if is_global p then p.last_index else 0)) [
    | none ↦ (false, if is_global p then (record p { last_index = 0 }) else p)
    | some match_end ↦ (true, if is_global p then (record p { last_index = match_end }) else p)
  ]

  unfoldable pub get_segments : Rule → Text → List Text
  unfolding split_slash
  get_segments r input = if r.each_segment then split_slash input else input ∷ []

  -- The loop of `matches`.
  unfoldable pub any_matches : Pattern → List Text → Bool × Pattern
  any_matches p [] = (false, p)
  any_matches p (segment ∷ segments) =
      let tested = test p segment in
      let rest = any_matches tested.1 segments in if tested.0 then tested else rest

  unfoldable pub matches : Rule → Text → Bool × Pattern
  matches r input = any_matches r.pattern (get_segments r input)

  -- `applyMap` on one segment: whether it matched, what it becomes, and the pattern afterwards.
  unfoldable pub apply_map : Rule → Text → Bool × Text × Pattern
  apply_map r [] = (false, [], record r.pattern { last_index = 0 })
  apply_map r (c ∷ s) =
      let p = record r.pattern { last_index = 0 } in
      let tested = test p (c ∷ s) in
      if tested.0
      then (true, E.replace p.program (c ∷ s) r.replacement, if is_global p then p else tested.1)
      else (false, c ∷ s, tested.1)

  -- The rule after one segment.
  abbrev pub after_segment : Rule → Text → Rule
  after_segment r segment = record r {
    matched = r.matched || (apply_map r segment).0;
    pattern = (apply_map r segment).2;
  }

  unfoldable pub map_segments : Rule → List Text → List Text × Rule
  map_segments r [] = ([], r)
  map_segments r (segment ∷ segments) =
      let rest = map_segments (after_segment r segment) segments in
      ((apply_map r segment).1 ∷ rest.0, rest.1)

  -- `apply` of an ignore rule: the answer, `none` for null, and the rule afterwards.
  unfoldable pub apply_ignore : Rule → Text → Option Text × Rule
  apply_ignore r input =
      let found = matches r input in
      (if found.0 then none else some input, record r { matched = found.0; pattern = found.1 })

  -- A slash in front that the input has and the result has lost is put back.
  abbrev pub restore_slash : Text → Text → Text
  restore_slash input result =
      if starts_with_slash input && not (starts_with_slash result) then slash ∷ result else result

  -- `apply` of any other rule.
  unfoldable pub apply_replace : Rule → Text → Option Text × Rule
  unfolding join_slash
  apply_replace r input =
      let mapped = map_segments (record r { matched = false }) (get_segments r input) in
      (some (restore_slash input (join_slash mapped.0)), mapped.1)

  unfoldable pub apply : Rule → Text → Option Text × Rule
  apply r input = if r.ignore then apply_ignore r input else apply_replace r input

  pub apply-ignores :
      (r : Rule) (input : Text) → r.ignore ≡ true → apply r input ≡ apply_ignore r input
  unfolding apply
  apply-ignores r input e = ap (λ b. if b then apply_ignore r input else apply_replace r input) e

  pub apply-replaces :
      (r : Rule) (input : Text) → r.ignore ≡ false → apply r input ≡ apply_replace r input
  unfolding apply
  apply-replaces r input e = ap (λ b. if b then apply_ignore r input else apply_replace r input) e
