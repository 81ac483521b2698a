-- ===== src/NameState/Cache.antt =====
-- The cached path of a name state.
use monis_agent.Common.{
  ℕ, ◌≡◌, refl, ◌⊎◌, ◌≢◌, List, [], ◌∷◌, ◌++◌, Option, none, some, false, arith, if◌then◌else◌,
}
use mathlib.Core.List.{append-nil}
use monis_agent.Common.Text.{Text}
use monis_agent.NameState
use monis_agent.NameState.{
  NameState, Call, Piece, naming, prefixing, verbing, delimiting, appending, appending_if_empty,
  popping, marking, resetting, freezing, reading, slash, join_from, joined, pieces, is_empty_list,
}

module _ {ℓ} {Params : Type ℓ} where
  -- The path that the pieces make, if there are any.
  unfoldable pub path_of : NameState Params → Option Text
  path_of s =
      if is_empty_list (pieces Params s)
      then none
      else some (join_from Params (slash ∷ []) (pieces Params s))

  -- Nothing is cached, or the path that the pieces make.
  pub IsCoherent : NameState Params → Type 0
  IsCoherent s = (s.path_cache ≡ none) ⊎ ((s.path_cache ≡ path_of s) × (path_of s ≢ none))

  -- The calls that keep the cache right: an empty piece is not pushed on an empty stack, nor an empty
  -- stack marked, while there is a marked path.
  abbrev pub IsSafe : NameState Params → Call Params → Type ℓ
  IsSafe s (appending (some []) params) = (s.path_stack ≢ []) ⊎ (s.marked_path ≡ [])
  IsSafe s marking = (s.path_stack ≢ []) ⊎ (s.marked_path ≡ [])
  IsSafe s _ = Unit

  join_from-append_empty :
      (path : Text) (ps : List (Piece Params)) (params : Option Params)
      → join_from Params path (ps ++ record { path = []; params = params } ∷ [])
        ≡ join_from Params path ps
  unfolding join_from
  join_from-append_empty path [] params = append-nil path
  join_from-append_empty path (a ∷ ps) params =
      join_from-append_empty (path ++ joined (NameState.ends_in_slash path) a.path) ps params

  call-IsCoherent :
      (s : NameState Params) (c : Call Params)
      → IsSafe s c
      → IsCoherent s
      → IsCoherent (NameState.call s c)
  unfolding NameState.call path_of IsCoherent
  call-IsCoherent s (naming p v d a) safe h = ground arith
  call-IsCoherent s (prefixing p) safe h = ground arith
  call-IsCoherent s (verbing v) safe h = ground arith
  call-IsCoherent s (delimiting d) safe h = ground arith
  call-IsCoherent s (appending none params) safe h = ground arith
  call-IsCoherent s (appending (some []) params) safe h =
      ground (arith, join_from-append_empty (slash ∷ []) s.path_stack params)
  call-IsCoherent s (appending (some (c ∷ path)) params) safe h = ground arith
  call-IsCoherent s (appending_if_empty none params) safe h = ground arith
  call-IsCoherent s (appending_if_empty (some path) params) safe h = ground arith
  call-IsCoherent s (popping path) safe h = ground arith
  call-IsCoherent s marking safe h = ground arith
  call-IsCoherent s resetting safe h = ground arith
  call-IsCoherent s freezing safe h = ground arith
  call-IsCoherent s reading safe h = ground arith

  -- A sequence of calls, each safe in the state that it meets.
  abbrev pub AllSafe : NameState Params → List (Call Params) → Type ℓ
  AllSafe s [] = Unit
  AllSafe s (c ∷ cs) = IsSafe s c × AllSafe (NameState.call s c) cs

  calls-IsCoherent :
      (cs : List (Call Params)) (s : NameState Params)
      → AllSafe s cs
      → IsCoherent s
      → IsCoherent (NameState.calls s cs)
  unfolding NameState.calls
  calls-IsCoherent [] s safe h = h
  calls-IsCoherent (c ∷ cs) s safe h =
      calls-IsCoherent cs (NameState.call s c) safe.1 (call-IsCoherent s c safe.0 h)

  join_from-cons :
      (c : ℕ) (path : Text) (ps : List (Piece Params))
      → (d : ℕ) × (rest : Text) × (join_from Params (c ∷ path) ps ≡ d ∷ rest)
  unfolding join_from
  join_from-cons c path [] = (c, path, refl)
  join_from-cons c path (a ∷ ps) =
      join_from-cons c (path ++ joined (NameState.ends_in_slash (c ∷ path)) a.path) ps

  get_path-IsCoherent :
      (s : NameState Params) → IsCoherent s → (NameState.get_path Params s).1 ≡ path_of s
  unfolding NameState.get_path path_of IsCoherent
  get_path-IsCoherent s h = ground (arith, join_from-cons slash [] (pieces Params s))

  -- An unsafe call leaves a path that the pieces no longer make: an unfrozen state whose stack is empty
  -- and whose marked path has been read still answers with that path after an empty piece is pushed.
  pub appending-stale :
      (s : NameState Params) (params : Option Params) (p : Text)
      → s.frozen ≡ false
      → s.path_stack ≡ []
      → s.path_cache ≡ some p
      → p ≢ []
      → p ≢ slash ∷ []
      → let s' = NameState.call s (appending (some []) params) in
        ((NameState.get_path Params s').1 ≡ some p) × (path_of s' ≡ some (slash ∷ []))
  unfolding NameState.call NameState.get_path path_of
  appending-stale s params p thawed empty cached some_path other = ground arith

new-IsCoherent {ℓ} :
    (Params : Type ℓ) (prefix verb delimiter path : Option Text)
    → IsCoherent {Params = Params} (NameState.new Params prefix verb delimiter path)
unfolding NameState.new IsCoherent
new-IsCoherent Params prefix verb delimiter path = ground arith

-- However a new name state has been changed by safe calls, `getPath` returns the path that its
-- pieces make, cached or not.
pub get_path-calls {ℓ} :
    (Params : Type ℓ) (prefix verb delimiter path : Option Text) (cs : List (Call Params))
    → AllSafe (NameState.new Params prefix verb delimiter path) cs
    → let s = NameState.calls (NameState.new Params prefix verb delimiter path) cs in
      (NameState.get_path Params s).1 ≡ path_of s
get_path-calls Params prefix verb delimiter path cs safe =
    get_path-IsCoherent _
      (calls-IsCoherent cs _ safe (new-IsCoherent Params prefix verb delimiter path))
