-- ===== src/NameState.antt =====
-- lib/transaction/name-state.js: the name of a transaction, kept as a stack of path pieces with a
-- cached path. A piece that is a regular expression stands as its source; the parameters of a piece
-- are of any type. Logging is left out.
pub mod Frozen
pub mod Cache
pub mod Slashes
pub mod Stack
use monis_agent.Common.{
  ℕ, zero, suc, ◌≡◌, List, [], ◌∷◌, ◌++◌, map, Option, none, some, Bool, true, false, not, ◌&&◌,
  ◌||◌, take, ◌==◌, if◌then◌else◌,
}
use monis_agent.Common.Text.{Text, codes, text_eq, to_upper_case, last?, init}

abbrev pub slash : ℕ
slash = b'/'

abbrev pub framework_prefix : Text
framework_prefix = codes "WebFrameworkUri"

abbrev pub legacy_naming : List Text
legacy_naming =
    codes "Custom"
    ∷ codes "Connect"
    ∷ codes "Director"
    ∷ codes "Expressjs"
    ∷ codes "Hapi"
    ∷ codes "Nodejs"
    ∷ codes "Restify"
    ∷ []

unfoldable pub is_one_of : Text → List Text → Bool
is_one_of s [] = false
is_one_of s (t ∷ ts) = text_eq s t || is_one_of s ts

-- `LEGACY_NAMING` has the prefix as its own property; the missing prefix reads `null`.
unfoldable pub is_legacy : Option Text → Bool
unfolding is_one_of text_eq
is_legacy none = false
is_legacy (some prefix) = is_one_of prefix legacy_naming

unfoldable pub status_code_name : ℕ → Option Text
status_code_name code =
    if code == 404
    then some (codes "(not found)")
    else if code == 501
    then some (codes "(not implemented)")
    else if code == 405
    then some (codes "(method not allowed)")
    else none

-- A text is falsy if it is missing or empty.
abbrev pub text_or_empty : Option Text → Text
text_or_empty none = []
text_or_empty (some s) = s

abbrev pub truthy : Option Text → Option Text
truthy none = none
truthy (some []) = none
truthy (some (c ∷ s)) = some (c ∷ s)

abbrev pub is_empty_list {ℓ} : {A : Type ℓ} → List A → Bool
is_empty_list [] = true
is_empty_list (x ∷ xs) = false

abbrev pub is_none {ℓ} : {A : Type ℓ} → Option A → Bool
is_none none = true
is_none (some a) = false

-- The piece that the loop of `getPath` adds to the path so far, which ends in `/` or not.
unfoldable pub joined : Bool → Text → Text
unfolding text_eq
joined at_slash [] = []
joined at_slash (c ∷ a) =
    if text_eq (c ∷ a) (slash ∷ [])
    then []
    else if not (c == slash) && not at_slash
    then slash ∷ c ∷ a
    else if c == slash && at_slash
    then a
    else c ∷ a

unfoldable pub ends_in_slash : Text → Bool
unfolding last?
ends_in_slash s = elim (last? s) [ none ↦ false | some c ↦ c == slash ]

module _ {ℓ} (Params : Type ℓ) where
  pub record Piece : Type ℓ where
    pub path : Text
    pub params : Option Params

  pub record NameState : Type ℓ where
    pub prefix : Option Text
    pub verb : Option Text
    pub delimiter : Option Text
    pub path_stack : List Piece
    pub path_cache : Option Text
    pub marked_path : List Piece
    pub frozen : Bool

  unfoldable pub strip_slash : Text → Text
  unfolding ends_in_slash init
  strip_slash s = if ends_in_slash s then init s else s

  unfoldable pub set_prefix : NameState → Option Text → NameState
  unfolding strip_slash
  set_prefix s none = if s.frozen then s else record s { prefix = none }
  set_prefix s (some prefix) =
      if s.frozen then s else record s { prefix = some (strip_slash prefix) }

  abbrev pub upper_verb : Option Text → Option Text
  upper_verb none = none
  upper_verb (some verb) = some (to_upper_case verb)

  -- `path ? [{ path, params: null }] : []`
  abbrev pub first_piece : Option Text → List Piece
  first_piece none = []
  first_piece (some []) = []
  first_piece (some (c ∷ path)) = record { path = c ∷ path; params = none } ∷ []

  unfoldable pub set_name :
      NameState → Option Text → Option Text → Option Text → Option Text → NameState
  unfolding set_prefix to_upper_case
  set_name s prefix verb delimiter path = if s.frozen then s else record (set_prefix s prefix) {
    verb = upper_verb verb;
    delimiter = delimiter;
    path_stack = first_piece path;
    path_cache = none;
    marked_path = [];
  }

  unfoldable pub reset : NameState → NameState
  reset s = if s.frozen then s else record s {
    prefix = none;
    verb = none;
    delimiter = none;
    path_stack = [];
    path_cache = none;
  }

  -- The constructor resets a state that has no fields yet, and sets all of them.
  unfoldable pub new : Option Text → Option Text → Option Text → Option Text → NameState
  unfolding set_name reset
  new prefix verb delimiter path =
      let blank : NameState = record {
        prefix = none;
        verb = none;
        delimiter = none;
        path_stack = [];
        path_cache = none;
        marked_path = [];
        frozen = false;
      } in
      set_name (reset blank) prefix verb delimiter path

  unfoldable pub mark_path : NameState → NameState
  mark_path s = record s { marked_path = s.path_stack }

  unfoldable pub set_verb : NameState → Option Text → NameState
  unfolding to_upper_case
  set_verb s verb = if s.frozen then s else record s { verb = upper_verb verb }

  unfoldable pub set_delimiter : NameState → Option Text → NameState
  set_delimiter s delimiter = if s.frozen then s else record s { delimiter = delimiter }

  unfoldable pub is_empty : NameState → Bool
  is_empty s = is_empty_list s.path_stack && is_empty_list s.marked_path

  unfoldable pub append_path : NameState → Option Text → Option Params → NameState
  append_path s none params = s
  append_path s (some path) params = if s.frozen then s else record s {
    path_stack = s.path_stack ++ record { path = path; params = params } ∷ [];
    path_cache = if is_empty_list path then s.path_cache else none;
  }

  unfoldable pub append_path_if_empty : NameState → Option Text → Option Params → NameState
  unfolding append_path is_empty
  append_path_if_empty s path params =
      if not s.frozen && is_empty s then append_path s path params else s

  -- The index of the last piece that passes; `none` for the source's -1.
  unfoldable pub find_last_index : (Piece → Bool) → List Piece → Option ℕ
  find_last_index pred [] = none
  find_last_index pred (a ∷ arr) = elim (find_last_index pred arr) [
    | some i ↦ some (suc i)
    | none ↦ if pred a then some 0 else none
  ]

  unfoldable pub drop_last : List Piece → List Piece
  drop_last [] = []
  drop_last (a ∷ []) = []
  drop_last (a ∷ b ∷ arr) = a ∷ drop_last (b ∷ arr)

  -- The stack that `popPath` leaves.
  unfoldable pub popped : Option Text → List Piece → List Piece
  unfolding find_last_index drop_last text_eq
  popped none stack = drop_last stack
  popped (some path) stack = elim (find_last_index (λ a. text_eq a.path path) stack) [
    | none ↦ stack
    | some idx ↦ take idx stack
  ]

  unfoldable pub pop_path : NameState → Option Text → NameState
  unfolding popped
  pop_path s path =
      if s.frozen || is_empty_list s.path_stack
      then s
      else record s { path_cache = none; path_stack = popped path s.path_stack }

  -- The loop of `getPath` from a path on.
  unfoldable pub join_from : Text → List Piece → Text
  unfolding joined ends_in_slash
  join_from path [] = path
  join_from path (a ∷ ps) = join_from (path ++ joined (ends_in_slash path) a.path) ps

  -- The pieces that name the transaction: the stack, or what was marked if that is empty.
  abbrev pub pieces : NameState → List Piece
  pieces s = if is_empty_list s.path_stack then s.marked_path else s.path_stack

  unfoldable pub get_path : NameState → NameState × Option Text
  unfolding join_from
  get_path s = elim (truthy s.path_cache) [
    | some path ↦ (s, some path)
    | none ↦
        if is_empty_list (pieces s)
        then (s, none)
        else (let path = join_from (slash ∷ []) (pieces s) in
            (record s { path_cache = some path }, some path))
  ]

  unfoldable pub build_name : NameState → Text → Text
  build_name s path =
      let verb : Text =
        if is_empty_list (text_or_empty s.verb) then [] else slash ∷ text_or_empty s.verb in
      text_or_empty s.prefix ++ verb ++ text_or_empty s.delimiter ++ path

  unfoldable pub get_status_name : NameState → ℕ → Option Text
  unfolding build_name is_legacy status_code_name
  get_status_name s code = elim (status_code_name code) [
    | none ↦ none
    | some name ↦
        if is_legacy s.prefix
        then some (build_name s name)
        else some (framework_prefix ++ slash ∷ build_name s name)
  ]

  unfoldable pub get_name_not_found : NameState → Text
  unfolding build_name is_legacy
  get_name_not_found s =
      let name = build_name s (codes "(not found)") in
      if is_legacy s.prefix then name else framework_prefix ++ slash ∷ name

  unfoldable pub get_name : NameState → NameState × Option Text
  get_name s =
      let (s', path) = get_path s in
      (s', elim path [ none ↦ none | some p ↦ some (build_name s' p) ])

  -- In a concatenation a missing name reads `null`.
  unfoldable pub get_full_name : NameState → NameState × Option Text
  get_full_name s =
      let (s', name) = get_name s in
      let shown : Text = elim name [ none ↦ codes "null" | some n ↦ n ] in
      (s', if is_legacy s.prefix then name else some (framework_prefix ++ slash ∷ shown))

  -- The parameters that `forEachParams` calls its function with, in order.
  unfoldable pub each_params : List Piece → List Params
  each_params [] = []
  each_params (a ∷ stack) =
      let rest = each_params stack in elim a.params [ none ↦ rest | some params ↦ params ∷ rest ]

  unfoldable pub for_each_params : NameState → List Params
  unfolding each_params
  for_each_params s = each_params s.path_stack

  unfoldable pub freeze : NameState → NameState
  freeze s = record s { frozen = true }

-- The methods that change a state, as they are called from outside.
pub data Call {ℓ} (Params : Type ℓ) : Type ℓ where
  naming : Option Text → Option Text → Option Text → Option Text → Call Params
  prefixing : Option Text → Call Params
  verbing : Option Text → Call Params
  delimiting : Option Text → Call Params
  appending : Option Text → Option Params → Call Params
  appending_if_empty : Option Text → Option Params → Call Params
  popping : Option Text → Call Params
  marking : Call Params
  resetting : Call Params
  freezing : Call Params
  reading : Call Params

module _ {ℓ} {Params : Type ℓ} where
  unfoldable pub call : NameState Params → Call Params → NameState Params
  unfolding set_name set_prefix set_verb set_delimiter append_path append_path_if_empty pop_path
      mark_path reset freeze get_path
  call s (naming prefix verb delimiter path) = set_name Params s prefix verb delimiter path
  call s (prefixing prefix) = set_prefix Params s prefix
  call s (verbing verb) = set_verb Params s verb
  call s (delimiting delimiter) = set_delimiter Params s delimiter
  call s (appending path params) = append_path Params s path params
  call s (appending_if_empty path params) = append_path_if_empty Params s path params
  call s (popping path) = pop_path Params s path
  call s marking = mark_path Params s
  call s resetting = reset Params s
  call s freezing = freeze Params s
  call s reading = (get_path Params s).0

  unfoldable pub calls : NameState Params → List (Call Params) → NameState Params
  unfolding call
  calls s [] = s
  calls s (c ∷ cs) = calls (call s c) cs
