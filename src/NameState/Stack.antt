-- ===== src/NameState/Stack.antt =====
-- The stack of pieces: what is pushed and then popped.
use monis_agent.Common.{
  ◌≡◌, refl, sym, ap, ◌∙◌, List, [], ◌∷◌, ◌++◌, map, Option, none, some, true, false, arith, length,
  take,
}
use mathlib.Core.List.{append_assoc, append-nil}
use monis_agent.Common.Text.{Text, text_eq, text_eq_refl}
use monis_agent.NameState
use monis_agent.NameState.{
  NameState, Call, Piece, appending, popping, find_last_index, is_empty_list,
}

module _ {ℓ} {A : Type ℓ} where
  take-append : (xs ys : List A) → take (length xs) (xs ++ ys) ≡ xs
  take-append [] ys = refl
  take-append (x ∷ xs) ys = ap (◌∷◌ x) (take-append xs ys)

-- No piece of the list is `p`.
abbrev pub Without : Text → List Text → Type 0
Without p [] = Unit
Without p (q ∷ qs) = (text_eq q p ≡ false) × Without p qs

module _ {ℓ} {Params : Type ℓ} where
  -- A piece pushed without parameters.
  abbrev pub piece : Text → Piece Params
  piece q = record { path = q; params = none }

find_last_index-Without {ℓ} :
    (Params : Type ℓ) (p : Text) (qs : List Text)
    → Without p qs
    → find_last_index Params (λ a. text_eq a.path p) (map piece qs) ≡ none
unfolding find_last_index
find_last_index-Without Params p [] w = refl
find_last_index-Without Params p (q ∷ qs) w =
    ground (arith, w.0, find_last_index-Without Params p qs w.1)

module _ {ℓ} {Params : Type ℓ} where
  find_last_index-append :
      (p : Text) (xs : List (Piece Params)) (a : Piece Params) (qs : List Text)
      → text_eq a.path p ≡ true
      → Without p qs
      → find_last_index Params (λ b. text_eq b.path p) (xs ++ a ∷ map piece qs) ≡ some (length xs)
  unfolding find_last_index
  find_last_index-append p [] a qs e w = ground (arith, find_last_index-Without Params p qs w)
  find_last_index-append p (x ∷ xs) a qs e w = ground (arith, find_last_index-append p xs a qs e w)

  -- The calls of `appendPath` with the given pieces, in order.
  abbrev pub append_all : List Text → List (Call Params)
  append_all qs = map (λ q. appending (some q) none) qs

  pushed :
      (s : NameState Params) (p : Text) (params : Option Params)
      → s.frozen ≡ false
      → ((NameState.call s (appending (some p) params)).path_stack
          ≡ s.path_stack ++ record { path = p; params = params } ∷ [])
        × ((NameState.call s (appending (some p) params)).frozen ≡ false)
  unfolding NameState.call
  pushed s p params e = ground arith

  path_stack-append_all :
      (qs : List Text) (s : NameState Params)
      → s.frozen ≡ false
      → ((NameState.calls s (append_all qs)).path_stack ≡ s.path_stack ++ map piece qs)
        × ((NameState.calls s (append_all qs)).frozen ≡ false)
  unfolding NameState.calls
  path_stack-append_all [] s e = (sym (append-nil s.path_stack), e)
  path_stack-append_all (q ∷ qs) s e =
      let (stack, thawed) = pushed s q none e in
      let (rest, still) =
        path_stack-append_all qs (NameState.call s (appending (some q) none)) thawed in
      (
        rest
            ∙ ap (λ xs. xs ++ map piece qs) stack
            ∙ append_assoc s.path_stack (piece q ∷ []) (map piece qs),
        still,
      )

  popped-append :
      (p : Text) (xs : List (Piece Params)) (a : Piece Params) (qs : List Text)
      → text_eq a.path p ≡ true
      → Without p qs
      → NameState.popped Params (some p) (xs ++ a ∷ map piece qs) ≡ xs
  unfolding NameState.popped
  popped-append p xs a qs e w =
      rw (find_last_index-append p xs a qs e w, NameState.popped)
        (take-append xs (a ∷ map piece qs))

  pop_path-stack :
      (s : NameState Params) (p : Text) (xs : List (Piece Params))
      → s.frozen ≡ false
      → is_empty_list s.path_stack ≡ false
      → NameState.popped Params (some p) s.path_stack ≡ xs
      → (NameState.call s (popping (some p))).path_stack ≡ xs
  unfolding NameState.call
  pop_path-stack s p xs e more h = rw (e, more) h

  not_empty-append :
      (xs ys : List (Piece Params)) (a : Piece Params) → is_empty_list (xs ++ a ∷ ys) ≡ false
  not_empty-append [] ys a = refl
  not_empty-append (x ∷ xs) ys a = refl

  -- Popping back to a piece undoes its push and every later one: on a state that is not frozen, after a
  -- piece and then others with other paths are pushed, popping by the first one's path restores the
  -- stack.
  pub pop_path-append_path :
      (s : NameState Params) (p : Text) (params : Option Params) (qs : List Text)
      → s.frozen ≡ false
      → Without p qs
      → (NameState.call
          (NameState.calls (NameState.call s (appending (some p) params)) (append_all qs))
          (popping (some p))).path_stack
        ≡ s.path_stack
  pop_path-append_path s p params qs e w =
      let (one, thawed) = pushed s p params e in
      let s₁ = NameState.call s (appending (some p) params) in
      let (more, still) = path_stack-append_all qs s₁ thawed in
      let stack =
        more
        ∙ ap (λ xs. xs ++ map piece qs) one
        ∙ append_assoc s.path_stack (record { path = p; params = params } ∷ []) (map piece qs) in
      pop_path-stack (NameState.calls s₁ (append_all qs)) p s.path_stack still
        (ap is_empty_list stack ∙ not_empty-append s.path_stack (map piece qs) _)
        (ap (NameState.popped Params (some p)) stack
          ∙ popped-append p s.path_stack _ qs (text_eq_refl p) w)
