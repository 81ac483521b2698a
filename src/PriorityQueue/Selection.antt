-- ===== src/PriorityQueue/Selection.antt =====
-- What the queue keeps: of everything it was offered, the `limit` entries of the highest
-- priorities.
use monis_agent.Common.{
  ℕ, suc, ◌≤◌, ◌<◌, min, ◌≡◌, refl, sym, ap, inl, inr, List, [], ◌∷◌, ◌++◌, Option, some, Bool,
  true, false, Bool-cases, Option-cases, length, length-append, zero_or_pos, ltb, leb, ltb→lt,
  leb→le, ltb-false, leb-false, ==-false, ◌∙◌, ◌==◌, ==_iff, arith, subst,
}
use monis_agent.FibonacciHeap.{FibonacciHeap, IsMinHeap}
use monis_agent.PriorityQueue
use monis_agent.PriorityQueue.{Queue, effective, ◌>>=◌}
use monis_agent.PriorityQueue.Perms.{length-Perm, mem-Perm, perm-cons_left, perm-cons_right}
use mathlib.Core.List.{Perm, Mem, mem-cons, not-mem-nil, mem-cons_of_mem, perm_middle}
use mathlib.Core.List.Perm
use mathlib.Core.Logic.Or
use native.Mathlib.Bridge.{le_prop}

length_of_mem {ℓ} : {A : Type ℓ} {x : A} (xs : List A) → Mem x xs → 0 < length xs
length_of_mem [] m = absurd (not-mem-nil m)
length_of_mem (y ∷ xs) m = omega arith

module _ {ℓ} {V : Type ℓ} where
  -- `kept` is a selection of `limit` entries of `offered`: those kept and those dropped are together
  -- what was offered, none dropped is above one that is kept, and nothing is dropped before
  -- `limit` entries are kept.
  pub record Selects (limit : ℕ) (offered kept dropped : List (ℕ × V)) : Type ℓ where
    pub together : Perm (kept ++ dropped) offered
    pub least_dropped : (e d : ℕ × V) → Mem e kept → Mem d dropped → d.0 ≤ e.0
    pub within : length kept ≤ limit
    pub full : 0 < length dropped → length kept ≡ limit

  pub Selects-nil : (limit : ℕ) → Selects limit [] [] []
  Selects-nil limit = record {
    together = Perm.nil;
    least_dropped = λ e d m _. absurd (not-mem-nil m);
    within = omega arith;
    full = λ h. absurd (omega arith);
  }

  -- How many are kept follows from how many were offered.
  pub Selects-size :
      {limit : ℕ} {offered kept dropped : List (ℕ × V)}
      → Selects limit offered kept dropped
      → length kept ≡ min limit (length offered)
  Selects-size {kept = kept} {dropped} s =
      let sizes = sym (length-append kept dropped) ∙ length-Perm s.together in
      elim (zero_or_pos (length dropped)) [
        | inl nothing ↦ omega (arith, s.within)
        | inr something ↦ omega (arith, s.full something)
      ]

  module _ {limit : ℕ} {offered kept dropped : List (ℕ × V)}
      (s : Selects limit offered kept dropped) (x : ℕ × V) where
    -- A new entry is kept while there is room.
    pub Selects-keep :
        (kept' : List (ℕ × V))
        → Perm kept' (x ∷ kept)
        → length kept < limit
        → Selects limit (x ∷ offered) kept' dropped
    Selects-keep kept' p room = record {
      together = perm-cons_left x dropped p s.together;
      least_dropped = λ e d me md.
          Or.elim le_prop (mem-cons.0 (mem-Perm p me))
            (λ _. absurd (omega (arith, s.full (length_of_mem dropped md))))
            (λ old. s.least_dropped e d old md);
      within = omega (arith, length-Perm p);
      full = λ h. absurd (omega (arith, s.full h));
    }

    -- A new entry that is below all that are kept is dropped.
    pub Selects-drop :
        length kept ≡ limit
        → ((e : ℕ × V) → Mem e kept → x.0 ≤ e.0)
        → Selects limit (x ∷ offered) kept (x ∷ dropped)
    Selects-drop is_full below = record {
      together = perm-cons_right x kept dropped s.together;
      least_dropped = λ e d me md.
          Or.elim le_prop (mem-cons.0 md) (λ q. rw q (below e me))
            (λ old. s.least_dropped e d me old);
      within = s.within;
      full = λ _. is_full;
    }

    -- With no room, a new entry above a kept one takes the place of a least one.
    pub Selects-replace :
        {kept₁ kept' : List (ℕ × V)} (m out : ℕ × V)
        → length kept ≡ limit
        → Mem m kept
        → m.0 < x.0
        → Perm kept₁ (x ∷ kept)
        → Perm kept₁ (out ∷ kept')
        → ((e : ℕ × V) → Mem e kept' → out.0 ≤ e.0)
        → Selects limit (x ∷ offered) kept' (out ∷ dropped)
    Selects-replace {kept₁} {kept'} m out is_full m_kept above inserted taken least = record {
      together = Perm.trans (perm_middle kept' dropped) (
          Perm.trans (Perm.append_right dropped (Perm.symm taken))
            (perm-cons_left x dropped inserted s.together));
      least_dropped = λ e d me md.
          Or.elim le_prop (mem-cons.0 md) (λ same. rw same (least e me))
            (λ old.
              below e d old
                (mem-Perm inserted (mem-Perm (Perm.symm taken) (mem-cons_of_mem out me))));
      within = omega (arith, length-Perm inserted, length-Perm taken);
      full = λ _. omega (arith, length-Perm inserted, length-Perm taken);
    }
      where
        below : (e d : ℕ × V) → Mem d dropped → Mem e (x ∷ kept) → d.0 ≤ e.0
        below e d old me =
            Or.elim le_prop (mem-cons.0 me)
              (λ same. rw same (omega (arith, s.least_dropped m d m_kept old)))
              (λ was_kept. s.least_dropped e d was_kept old)

module _ {ℓ} {V : Type ℓ} {h : FibonacciHeap V} (laws : IsMinHeap h) (random : ℕ → ℕ) where
  open h use {Heap, empty, insert, find_minimum, extract_minimum, node_count, nodes}

  -- The queue holds a selection of what it was offered, and has counted that.
  pub record Holds (q : Queue h) (offered dropped : List (ℕ × V)) : Type ℓ where
    pub selects : Selects q.limit offered (nodes q.heap) dropped
    pub counted : q.seen ≡ length offered

  pub find_minimum-some :
      (t : Heap) → 0 < length (nodes t) → (m : ℕ × V) × (find_minimum t ≡ some m)
  find_minimum-some t pos = elim (Option-cases (find_minimum t)) [
    | inl e ↦ absurd (omega (arith, ap length (laws.find_minimum-none t e)))
    | inr found ↦ found
  ]

  pub extract_minimum-some :
      (t : Heap) → 0 < length (nodes t) → (r : (ℕ × V) × Heap) × (extract_minimum t ≡ some r)
  extract_minimum-some t pos = elim (Option-cases (extract_minimum t)) [
    | inl e ↦ absurd (omega (arith, ap length (laws.extract_minimum-none t e)))
    | inr found ↦ found
  ]

  -- What one offer does: the queue is replaced by one that holds a selection of one more entry.
  pub record Offered (limit : ℕ) (before : List (ℕ × V)) (x : ℕ × V)
      (offered dropped : List (ℕ × V)) (result : Option (Queue h × Bool)) : Type ℓ where
    pub after : Queue h
    pub kept : Bool
    pub dropped' : List (ℕ × V)
    pub returns : result ≡ some (after, kept)
    pub holds : Holds after (x ∷ offered) dropped'
    pub same_limit : after.limit ≡ limit
    pub kept_room : length before < limit → kept ≡ true

  replace-Offered :
      (q : Queue h) (v : V) (p : ℕ) {offered dropped : List (ℕ × V)}
      → Selects q.limit offered (nodes q.heap) dropped
      → q.seen ≡ suc (length offered)
      → 0 < q.limit
      → length (nodes q.heap) ≡ q.limit
      → Offered q.limit (nodes q.heap) (p, v) offered dropped (PriorityQueue.replace h q v p)
  unfolding PriorityQueue.replace
  replace-Offered q v p {offered} {dropped} s count pos is_full =
      let (m, found) = find_minimum-some q.heap (omega arith) in
      elim (Bool-cases (ltb m.0 p)) [
        | inr low ↦ record {
          after = q;
          kept = false;
          dropped' = (p, v) ∷ dropped;
          returns = rw (found, low);
          holds = record {
            selects =
                Selects-drop s (p, v) is_full
                  (λ e me.
                    omega (arith, laws.find_minimum-le q.heap m e found me, ltb-false m.0 p low));
            counted = count;
          };
          same_limit = refl;
          kept_room = λ room. absurd (omega arith);
        }
        | inl high ↦
            let grown = insert p v q.heap in
            let inserted = laws.nodes-insert p v q.heap in
            let (r, taken) = extract_minimum-some grown (omega (arith, length-Perm inserted)) in
            record {
              after = record q { heap = r.1 };
              kept = true;
              dropped' = r.0 ∷ dropped;
              returns = rw (found, high, taken);
              holds = record {
                selects =
                    Selects-replace s (p, v) m r.0 is_full (laws.find_minimum-mem q.heap m found)
                      (ltb→lt m.0 p high) inserted (laws.extract_minimum-nodes grown r.1 r.0 taken)
                      (λ e me. laws.extract_minimum-le grown r.1 r.0 e taken me);
                counted = count;
              };
              same_limit = refl;
              kept_room = λ _. refl;
            }
      ]

  -- An offer never fails, and what is kept stays a selection of what was offered.
  pub add-Offered :
      (q : Queue h) (v : V) (priority : ℕ) {offered dropped : List (ℕ × V)}
      → Holds q offered dropped
      → Offered q.limit
          (nodes q.heap)
          (effective random q.seen priority, v)
          offered
          dropped
          (PriorityQueue.add h random q v priority)
  unfolding PriorityQueue.add
  add-Offered q v priority {offered} {dropped} held =
      let p = effective random q.seen priority in
      let counted : Queue h = record q { seen = suc q.seen } in
      let s = held.selects in
      elim (Bool-cases (leb q.limit 0)) [
        | inl none_kept ↦ rw none_kept (record {
          after = counted;
          kept = false;
          dropped' = (p, v) ∷ dropped;
          returns = refl;
          holds = record {
            selects =
                Selects-drop s (p, v) (omega (arith, leb→le q.limit 0 none_kept, s.within))
                  (λ e me. absurd (
                    omega (
                      arith,
                      length_of_mem (nodes q.heap) me,
                      s.within,
                      leb→le q.limit 0 none_kept,
                    )));
            counted = omega (arith, held.counted);
          };
          same_limit = refl;
          kept_room = λ room. absurd (omega (arith, leb→le q.limit 0 none_kept));
        })
        | inr some_kept ↦ elim (Bool-cases (node_count q.heap == q.limit)) [
          | inl is_full ↦
              rw (some_kept, is_full)
                (replace-Offered counted v p s (omega (arith, held.counted))
                  (leb-false q.limit 0 some_kept)
                  (sym (laws.node_count-nodes q.heap) ∙ (==_iff _ _).0 is_full))
          | inr room ↦
              rw (some_kept, room)
                (record {
                  after = record counted { heap = insert p v q.heap };
                  kept = true;
                  dropped' = dropped;
                  returns = refl;
                  holds = record {
                    selects =
                        Selects-keep s (p, v) (nodes (insert p v q.heap))
                          (laws.nodes-insert p v q.heap)
                          (omega
                            (arith, laws.node_count-nodes q.heap, s.within, ==-false _ _ room));
                    counted = omega (arith, held.counted);
                  };
                  same_limit = refl;
                  kept_room = λ _. refl;
                })
        ]
      ]

-- The entries that an array offers, in front of those offered before, each under the priority that
-- `add` gives it; the count of earlier offers is what `add` finds in `seen`.
abbrev pub offers {ℓ} : {V : Type ℓ} → (ℕ → ℕ) → List (ℕ × V) → List (ℕ × V) → List (ℕ × V)
offers random offered [] = offered
offers random offered (e ∷ events) =
    offers random ((effective random (length offered) e.0, e.1) ∷ offered) events

module _ {ℓ} {V : Type ℓ} {h : FibonacciHeap V} (laws : IsMinHeap h) (random : ℕ → ℕ) where
  -- Merging an array into a queue that holds a selection of what it was offered never fails: the
  -- queue then holds the entries of the highest priorities of all it was offered, the array's
  -- included, as many as its limit lets it, and has counted every offer.
  pub merge_array-Holds :
      (events : List (ℕ × V)) (q : Queue h) {offered dropped : List (ℕ × V)}
      → Holds laws random q offered dropped
      → (q' : Queue h) × (dropped' : List (ℕ × V)) × (PriorityQueue.merge_array h random q events
          ≡ some q')
        × Holds laws random q' (offers random offered events) dropped'
        × (q'.limit ≡ q.limit)
  unfolding PriorityQueue.merge_array
  merge_array-Holds [] q {offered} {dropped} held = (q, dropped, refl, held, refl)
  merge_array-Holds (e ∷ events) q {offered} {dropped} held =
      let o = add-Offered laws random q e.1 e.0 held in
      let (q', dropped', done, held', lim) = merge_array-Holds events o.after o.holds in
      (
        q',
        dropped',
        rw o.returns done,
        subst
            (λ n.
              Holds laws random q' (offers random ((effective random n e.0, e.1) ∷ offered) events)
                dropped')
            held.counted held',
        lim ∙ o.same_limit,
      )
