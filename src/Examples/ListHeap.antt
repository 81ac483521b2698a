-- ===== src/Examples/ListHeap.antt =====
-- A heap kept as an unordered list: it shows that the interface of the heap package can be met.
use monis_agent.Common.{
  ℕ, ◌≤◌, ◌≡◌, refl, List, [], ◌∷◌, Option, none, some, Bool-cases, inl, inr, length, ltb, ltb→lt,
  ltb-false, if◌then◌else◌, arith,
}
use monis_agent.FibonacciHeap.{FibonacciHeap, IsMinHeap}
use mathlib.Core.List.{Perm, Mem, mem-cons, not-mem-nil, mem-cons_self, mem-cons_of_mem}
use mathlib.Core.List.Perm
use mathlib.Core.Logic.Or
use native.Mathlib.Bridge.{le_prop}

module _ {V : Type 0} where
  abbrev pick : ℕ × V → List (ℕ × V) → Option ((ℕ × V) × List (ℕ × V)) → (ℕ × V) × List (ℕ × V)
  pick x xs none = (x, [])
  pick x xs (some r) = if ltb r.0.0 x.0 then (r.0, x ∷ r.1) else (x, xs)

  unfoldable pub extract : List (ℕ × V) → Option ((ℕ × V) × List (ℕ × V))
  extract [] = none
  extract (x ∷ xs) = some (pick x xs (extract xs))

  abbrev first : Option ((ℕ × V) × List (ℕ × V)) → Option (ℕ × V)
  first none = none
  first (some r) = some r.0

  first-some :
      (o : Option ((ℕ × V) × List (ℕ × V))) (m : ℕ × V)
      → first o ≡ some m
      → (r : List (ℕ × V)) × (o ≡ some (m, r))
  first-some none m e = cc
  first-some (some r) m e = (r.1, ground arith)

  extract-nil : (xs : List (ℕ × V)) → extract xs ≡ none → xs ≡ []
  unfolding extract
  extract-nil [] e = refl
  extract-nil (x ∷ xs) e = cc

  -- `r` takes a least entry out of `xs`.
  abbrev TakesLeast : List (ℕ × V) → (ℕ × V) × List (ℕ × V) → Type 0
  TakesLeast xs r = Perm xs (r.0 ∷ r.1) × ((e : ℕ × V) → Mem e xs → r.0.0 ≤ e.0)

  pick-TakesLeast :
      (x : ℕ × V) (xs : List (ℕ × V)) (o : Option ((ℕ × V) × List (ℕ × V)))
      → (o ≡ none → xs ≡ [])
      → ((s : (ℕ × V) × List (ℕ × V)) → o ≡ some s → TakesLeast xs s)
      → TakesLeast (x ∷ xs) (pick x xs o)
  pick-TakesLeast x xs none nothing found = (
    rw (nothing refl) (Perm.refl (x ∷ [])),
    λ e m.
        Or.elim le_prop (mem-cons.0 m) (λ same. rw same (omega arith))
          (λ old. absurd (not-mem-nil (rw (nothing refl) at old))),
  )
  pick-TakesLeast x xs (some s) nothing found =
      let (p, least) = found s refl in
      elim (Bool-cases (ltb s.0.0 x.0)) [
        | inl low ↦ rw low (
          Perm.trans (Perm.cons x p) (Perm.swap s.0 x s.1),
          λ e m.
              Or.elim le_prop (mem-cons.0 m) (λ same. rw same (omega (arith, ltb→lt s.0.0 x.0 low)))
                (λ old. least e old),
        )
        | inr high ↦ rw high (
          Perm.refl (x ∷ xs),
          λ e m.
              Or.elim le_prop (mem-cons.0 m) (λ same. rw same (omega arith))
                (λ old. omega (arith, least e old, ltb-false s.0.0 x.0 high)),
        )
      ]

  extract-TakesLeast :
      (xs : List (ℕ × V)) (r : (ℕ × V) × List (ℕ × V)) → extract xs ≡ some r → TakesLeast xs r
  unfolding extract
  extract-TakesLeast [] r e = cc
  extract-TakesLeast (x ∷ xs) r e =
      let same : pick x xs (extract xs) ≡ r = cc in
      rw (← same) (pick-TakesLeast x xs (extract xs) (extract-nil xs) (extract-TakesLeast xs))

  abbrev pub list_heap : FibonacciHeap V
  list_heap = record {
    Heap = List (ℕ × V);
    empty = [];
    insert = λ k v t. (k, v) ∷ t;
    find_minimum = λ t. first (extract t);
    extract_minimum = extract;
    node_count = length;
    nodes = λ t. t;
  }

  first-TakesLeast :
      (t : List (ℕ × V)) (m : ℕ × V)
      → first (extract t) ≡ some m
      → (r : List (ℕ × V)) × TakesLeast t (m, r)
  first-TakesLeast t m e =
      let (r, found) = first-some (extract t) m e in (r, extract-TakesLeast t (m, r) found)

  first-none : (o : Option ((ℕ × V) × List (ℕ × V))) → first o ≡ none → o ≡ none
  first-none none e = refl
  first-none (some r) e = cc

  pub list_heap-IsMinHeap : IsMinHeap list_heap
  list_heap-IsMinHeap = record {
    nodes-empty = refl;
    nodes-insert = λ k v t. Perm.refl ((k, v) ∷ t);
    node_count-nodes = λ t. refl;
    find_minimum-none = λ t e. extract-nil t (first-none (extract t) e);
    find_minimum-mem = λ t m e.
        let (r, taken) = first-TakesLeast t m e in
        (Perm.mem_iff (Perm.symm taken.0)).0 mem-cons_self;
    find_minimum-le = λ t m e found member. (first-TakesLeast t m found).1.1 e member;
    extract_minimum-none = extract-nil;
    extract_minimum-nodes = λ t t' m e. (extract-TakesLeast t (m, t') e).0;
    extract_minimum-le = λ t t' m e found member.
        let taken = extract-TakesLeast t (m, t') found in
        taken.1 e ((Perm.mem_iff (Perm.symm taken.0)).0 (mem-cons_of_mem m member));
  }
