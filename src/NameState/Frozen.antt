-- ===== src/NameState/Frozen.antt =====
-- A frozen name state.
use monis_agent.Common.{
  ℕ, ◌≡◌, refl, ap, ◌∙◌, inl, inr, ◌⊎◌, ◌≢◌, List, [], ◌∷◌, ◌++◌, Option, none, some, true, arith,
}
use monis_agent.Common.Text.{Text}
use monis_agent.NameState
use monis_agent.NameState.{NameState, Call, marking, slash, join_from, pieces}

module _ {ℓ} {Params : Type ℓ} where
  abbrev pub NoMarking : List (Call Params) → Type ℓ
  NoMarking [] = Unit
  NoMarking (c ∷ cs) = (c ≢ marking) × NoMarking cs

  join_from-cons :
      (c : ℕ) (path : Text) (ps : List (NameState.Piece Params))
      → (d : ℕ) × (rest : Text) × (join_from Params (c ∷ path) ps ≡ d ∷ rest)
  unfolding join_from
  join_from-cons c path [] = (c, path, refl)
  join_from-cons c path (a ∷ ps) =
      join_from-cons c (path ++ NameState.joined (NameState.ends_in_slash (c ∷ path)) a.path) ps

  -- A second call of `getPath` finds the cached path.
  get_path-twice :
      (s : NameState Params)
      → NameState.get_path Params (NameState.get_path Params s).0 ≡ NameState.get_path Params s
  unfolding NameState.get_path
  get_path-twice s = ground (arith, join_from-cons slash [] (pieces Params s))

  call-frozen :
      (s : NameState Params) (c : Call Params)
      → s.frozen ≡ true
      → c ≢ marking
      → (NameState.call s c ≡ s) ⊎ (NameState.call s c ≡ (NameState.get_path Params s).0)
  unfolding NameState.call
  call-frozen s c e m = ground arith

  get_path-keeps :
      (s : NameState Params)
      → ((NameState.get_path Params s).0.frozen ≡ s.frozen)
        × ((NameState.get_path Params s).0.prefix ≡ s.prefix)
        × ((p : Text)
            → NameState.build_name Params (NameState.get_path Params s).0 p
              ≡ NameState.build_name Params s p)
  unfolding NameState.get_path NameState.build_name
  get_path-keeps s = ground arith

  calls-frozen :
      (cs : List (Call Params)) (s : NameState Params)
      → s.frozen ≡ true
      → NoMarking cs
      → (NameState.calls s cs ≡ s) ⊎ (NameState.calls s cs ≡ (NameState.get_path Params s).0)
  unfolding NameState.calls
  calls-frozen [] s e m = inl refl
  calls-frozen (c ∷ cs) s e m = elim (call-frozen s c e m.0) [
    | inl same ↦ rw same (calls-frozen cs s e m.1)
    | inr read ↦
        rw read
          (elim (calls-frozen cs (NameState.get_path Params s).0 ((get_path-keeps s).0 ∙ e) m.1) [
            | inl same ↦ inr same
            | inr again ↦ inr (again ∙ ap (λ r. r.0) (get_path-twice s))
          ])
  ]

  -- The name that `getName` builds from what `getPath` returns.
  abbrev named : NameState Params × Option Text → NameState Params × Option Text
  named r = (r.0, elim r.1 [ none ↦ none | some p ↦ some (NameState.build_name Params r.0 p) ])

  get_name-get_path :
      (s : NameState Params)
      → NameState.get_name Params (NameState.get_path Params s).0 ≡ NameState.get_name Params s
  unfolding NameState.get_name
  get_name-get_path s = ap named (get_path-twice s)

  full_name-get_path :
      (s : NameState Params)
      → (NameState.get_full_name Params (NameState.get_path Params s).0).1
        ≡ (NameState.get_full_name Params s).1
  unfolding NameState.get_full_name
  full_name-get_path s = rw (get_name-get_path s, (get_path-keeps s).1)

  -- Once a state is frozen, no sequence of calls but `markPath` changes the transaction's full name.
  pub full_name-frozen :
      (cs : List (Call Params)) (s : NameState Params)
      → s.frozen ≡ true
      → NoMarking cs
      → (NameState.get_full_name Params (NameState.calls s cs)).1
        ≡ (NameState.get_full_name Params s).1
  full_name-frozen cs s e m = elim (calls-frozen cs s e m) [
    | inl same ↦ ap (λ t. (NameState.get_full_name Params t).1) same
    | inr read ↦ ap (λ t. (NameState.get_full_name Params t).1) read ∙ full_name-get_path s
  ]

  -- `markPath` does change it: on a frozen state whose stack is empty, whose marked path names the
  -- transaction and which has not been asked for its path yet, the path is lost.
  pub marking-frozen :
      (s : NameState Params)
      → s.frozen ≡ true
      → s.path_stack ≡ []
      → s.marked_path ≢ []
      → s.path_cache ≡ none
      → ((NameState.get_path Params s).1 ≢ none)
        × ((NameState.get_path Params (NameState.call s marking)).1 ≡ none)
  unfolding NameState.get_path NameState.call
  marking-frozen s e empty marked uncached = ground arith
