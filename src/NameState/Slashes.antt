-- ===== src/NameState/Slashes.antt =====
-- The slashes of a path that `getPath` builds.
use monis_agent.Common.{
  ◌≡◌, refl, sym, ◌∙◌, List, [], ◌∷◌, ◌++◌, none, some, Bool, true, false, ◌&&◌, arith, ◌==◌,
}
use mathlib.Core.List.{append-nil, append_assoc}
use monis_agent.Common.Text.{Text}
use monis_agent.NameState
use monis_agent.NameState.{NameState, Piece, slash, join_from, joined, pieces, ends_in_slash}

-- No two slashes stand side by side.
abbrev pub SingleSlashes : Text → Type 0
SingleSlashes [] = Unit
SingleSlashes (c ∷ []) = Unit
SingleSlashes (c ∷ d ∷ s) = (((c == slash) && (d == slash)) ≡ false) × SingleSlashes (d ∷ s)

abbrev starts_in_slash : Text → Bool
starts_in_slash [] = false
starts_in_slash (c ∷ s) = c == slash

SingleSlashes-append :
    (s t : Text)
    → SingleSlashes s
    → SingleSlashes t
    → (ends_in_slash s && starts_in_slash t) ≡ false
    → SingleSlashes (s ++ t)
unfolding ends_in_slash
SingleSlashes-append [] t h k e = k
SingleSlashes-append (c ∷ []) [] h k e = tt
SingleSlashes-append (c ∷ []) (d ∷ t) h k e = (e, k)
SingleSlashes-append (c ∷ d ∷ s) t h k e = (h.0, SingleSlashes-append (d ∷ s) t h.1 k e)

SingleSlashes-joined :
    (at_slash : Bool) (a : Text)
    → SingleSlashes a
    → SingleSlashes (joined at_slash a)
      × ((at_slash && starts_in_slash (joined at_slash a)) ≡ false)
unfolding joined
SingleSlashes-joined true [] h = (tt, refl)
SingleSlashes-joined false [] h = (tt, refl)
SingleSlashes-joined at_slash (c ∷ []) h = ground arith
SingleSlashes-joined at_slash (c ∷ d ∷ s) h = ground arith

module _ {ℓ} {Params : Type ℓ} where
  abbrev pub AllSingleSlashes : List (Piece Params) → Type 0
  AllSingleSlashes [] = Unit
  AllSingleSlashes (a ∷ ps) = SingleSlashes a.path × AllSingleSlashes ps

  SingleSlashes-join_from :
      (path : Text) (ps : List (Piece Params))
      → SingleSlashes path
      → AllSingleSlashes ps
      → SingleSlashes (join_from Params path ps)
  unfolding join_from
  SingleSlashes-join_from path [] h k = h
  SingleSlashes-join_from path (a ∷ ps) h k =
      let (single, apart) = SingleSlashes-joined (ends_in_slash path) a.path k.0 in
      SingleSlashes-join_from (path ++ joined (ends_in_slash path) a.path) ps
        (SingleSlashes-append path (joined (ends_in_slash path) a.path) h single apart) k.1

  join_from-extends :
      (path : Text) (ps : List (Piece Params))
      → (rest : Text) × (join_from Params path ps ≡ path ++ rest)
  unfolding join_from
  join_from-extends path [] = ([], sym (append-nil path))
  join_from-extends path (a ∷ ps) =
      let (rest, e) = join_from-extends (path ++ joined (ends_in_slash path) a.path) ps in
      (joined (ends_in_slash path) a.path ++ rest, e ∙ append_assoc path _ rest)

  -- A path that `getPath` builds from pieces without doubled slashes begins with a slash and has no
  -- doubled slash, however the pieces begin and end.
  pub get_path-SingleSlashes :
      (s : NameState Params) (path : Text)
      → s.path_cache ≡ none
      → AllSingleSlashes (pieces Params s)
      → (NameState.get_path Params s).1 ≡ some path
      → ((rest : Text) × (path ≡ slash ∷ rest)) × SingleSlashes path
  unfolding NameState.get_path
  get_path-SingleSlashes s path uncached single e =
      let built = join_from Params (slash ∷ []) (pieces Params s) in
      let same : built ≡ path = ground arith in
      let (rest, starts) = join_from-extends (slash ∷ []) (pieces Params s) in
      (
        (rest, sym same ∙ starts),
        rw (← same) (SingleSlashes-join_from (slash ∷ []) (pieces Params s) tt single),
      )
