-- ===== src/Reservoir/Full.antt =====
-- A reservoir whose limit is not raised keeps as many of the items it saw as it can.
use monis_agent.Common.{
  ℕ, zero, suc, ◌+◌, ◌≤◌, ◌<◌, min, ◌≡◌, refl, sym, subst, ◌∙◌, List, [], ◌∷◌, ◌++◌, Option, none,
  some, Bool-cases, inl, inr, arith, ltb, ltb→lt, ltb-false, length, take, length-append,
  length-take,
}
use monis_agent.Reservoir.{Reservoir, assign, add, merge, set_limit, new}

module _ {ℓ} (A : Type ℓ) where
  -- There is no hole.
  abbrev pub Solid : List (Option A) → Type 0
  Solid [] = Unit
  Solid (none ∷ items) = ⊥
  Solid (some a ∷ items) = Solid items

  -- Everything seen is there, or as much as the limit lets it, without holes.
  abbrev pub IsFull : Reservoir A → Type 0
  IsFull r = (length r.data_items ≡ min r.seen r.limit) × Solid r.data_items

  Solid-append : (items : List (Option A)) (a : A) → Solid items → Solid (items ++ some a ∷ [])
  Solid-append [] a h = tt
  Solid-append (none ∷ items) a h = h
  Solid-append (some x ∷ items) a h = Solid-append items a h

  Solid-take : (n : ℕ) (items : List (Option A)) → Solid items → Solid (take n items)
  Solid-take zero items h = tt
  Solid-take (suc n) [] h = tt
  Solid-take (suc n) (none ∷ items) h = h
  Solid-take (suc n) (some x ∷ items) h = Solid-take n items h

  length-assign :
      (items : List (Option A)) (n : ℕ) (a : A)
      → n < length items
      → length (assign A items n a) ≡ length items
  unfolding assign
  length-assign [] n a h = ground (arith, h)
  length-assign (x ∷ items) zero a h = refl
  length-assign (x ∷ items) (suc n) a h = omega (arith, length-assign items n a (omega (arith, h)))

  Solid-assign :
      (items : List (Option A)) (n : ℕ) (a : A)
      → n < length items
      → Solid items
      → Solid (assign A items n a)
  unfolding assign
  Solid-assign [] n a h s = ground (arith, h)
  Solid-assign (none ∷ items) n a h s = absurd s
  Solid-assign (some x ∷ items) zero a h s = s
  Solid-assign (some x ∷ items) (suc n) a h s = Solid-assign items n a (omega (arith, h)) s

  add-IsFull : (random : ℕ → ℕ) (a : A) (r : Reservoir A) → IsFull r → IsFull (add A random a r)
  unfolding add
  add-IsFull random a r h = elim (Bool-cases (ltb r.seen r.limit)) [
    | inl room ↦
        let lt = ltb→lt r.seen r.limit room in
        rw room (
          omega (arith, h.0, length-append r.data_items (some a ∷ []), lt),
          Solid-append r.data_items a h.1,
        )
    | inr full ↦
        let le = ltb-false r.seen r.limit full in
        elim (Bool-cases (ltb (random (r.seen + 2)) r.limit)) [
          | inl drawn ↦
              let lt : random (r.seen + 2) < length r.data_items =
                omega (arith, h.0, ltb→lt (random (r.seen + 2)) r.limit drawn, le) in
              rw (full, drawn)
                (
                  omega (arith, h.0, le, length-assign r.data_items (random (r.seen + 2)) a lt),
                  Solid-assign r.data_items (random (r.seen + 2)) a lt h.1,
                )
          | inr missed ↦ rw (full, missed) (omega (arith, h.0, le), h.1)
        ]
  ]

  merge-IsFull :
      (random : ℕ → ℕ) (items : List A) (r : Reservoir A)
      → IsFull r
      → IsFull (merge A random items r)
  unfolding merge
  merge-IsFull random [] r h = h
  merge-IsFull random (a ∷ items) r h =
      merge-IsFull random items (add A random a r) (add-IsFull random a r h)

  set_limit-IsFull : (n : ℕ) (r : Reservoir A) → n ≤ r.limit → IsFull r → IsFull (set_limit A n r)
  unfolding set_limit
  set_limit-IsFull n r le h = elim (Bool-cases (ltb n (length r.data_items))) [
    | inl more ↦ rw more (
      omega (arith, h.0, le, length-take n r.data_items, ltb→lt n (length r.data_items) more),
      Solid-take n r.data_items h.1,
    )
    | inr fits ↦ rw fits (omega (arith, h.0, le, ltb-false n (length r.data_items) fits), h.1)
  ]

  -- A call that changes the reservoir.
  pub data Call : Type ℓ where
    adding : (ℕ → ℕ) → A → Call
    merging : (ℕ → ℕ) → List A → Call
    limiting : ℕ → Call

  unfoldable pub run : List Call → Reservoir A → Reservoir A
  run [] r = r
  run (adding random a ∷ cs) r = run cs (add A random a r)
  run (merging random items ∷ cs) r = run cs (merge A random items r)
  run (limiting n ∷ cs) r = run cs (set_limit A n r)

  -- No call raises the limit.
  abbrev pub NeverRaises : ℕ → List Call → Type 0
  NeverRaises limit [] = Unit
  NeverRaises limit (adding random a ∷ cs) = NeverRaises limit cs
  NeverRaises limit (merging random items ∷ cs) = NeverRaises limit cs
  NeverRaises limit (limiting n ∷ cs) = (n ≤ limit) × NeverRaises n cs

  add-limit : (random : ℕ → ℕ) (a : A) (r : Reservoir A) → (add A random a r).limit ≡ r.limit
  unfolding add
  add-limit random a r = ground arith

  merge-limit :
      (random : ℕ → ℕ) (items : List A) (r : Reservoir A) → (merge A random items r).limit ≡ r.limit
  unfolding merge
  merge-limit random [] r = refl
  merge-limit random (a ∷ items) r =
      merge-limit random items (add A random a r) ∙ add-limit random a r

  set_limit-limit : (n : ℕ) (r : Reservoir A) → (set_limit A n r).limit ≡ n
  unfolding set_limit
  set_limit-limit n r = ground arith

  run-IsFull :
      (cs : List Call) (r : Reservoir A) → IsFull r → NeverRaises r.limit cs → IsFull (run cs r)
  unfolding run
  run-IsFull [] r h kept = h
  run-IsFull (adding random a ∷ cs) r h kept =
      run-IsFull cs (add A random a r) (add-IsFull random a r h)
        (subst (λ n. NeverRaises n cs) (sym (add-limit random a r)) kept)
  run-IsFull (merging random items ∷ cs) r h kept =
      run-IsFull cs (merge A random items r) (merge-IsFull random items r h)
        (subst (λ n. NeverRaises n cs) (sym (merge-limit random items r)) kept)
  run-IsFull (limiting n ∷ cs) r h kept =
      run-IsFull cs (set_limit A n r) (set_limit-IsFull n r kept.0 h)
        (subst (λ n. NeverRaises n cs) (sym (set_limit-limit n r)) kept.1)

  -- After any calls on a new reservoir that never raise the limit, its array has no hole, and as many
  -- items as were seen or as the limit allows, whatever numbers are drawn.
  pub reached-IsFull :
      (cs : List Call) (limit : Option ℕ)
      → NeverRaises (new A limit).limit cs
      → IsFull (run cs (new A limit))
  unfolding new
  reached-IsFull cs limit kept = run-IsFull cs (new A limit) (omega arith, tt) kept
