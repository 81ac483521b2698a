-- ===== src/Examples/Queues.antt =====
-- The priority queue over the list heap.
use monis_agent.Common.{ℕ, ◌≡◌, refl, List, [], ◌∷◌, some, Bool, length, arith, ap, ◌≤◌}
use monis_agent.Common.Int.{pos}
use monis_agent.EventAggregator
use monis_agent.EventAggregator.{Aggregator}
use monis_agent.EventAggregator.Tally.{Tally, add-Tally, merge_events-Tally}
use mathlib.Core.List.{Perm, not-mem-nil, append-nil, mem-cons}
use mathlib.Core.List.Perm
use mathlib.Core.Logic.Or
use mathlib.Core.HLevel.{⊥_prop}
use monis_agent.PriorityQueue
use monis_agent.PriorityQueue.{Queue}
use monis_agent.PriorityQueue.Selection.{Selects-nil, Holds, merge_array-Holds, offers}
use monis_agent.PriorityQueue.Bounded.{set_limit-Holds}
use monis_agent.PriorityQueue.Drain.{Drained, HasPriorities, merge_queue-Drained}
use monis_agent.Examples.ListHeap.{list_heap, list_heap-IsMinHeap as laws, extract}

abbrev half : ℕ → ℕ
half n = 5

abbrev heap_queue : ℕ → List (ℕ × ℕ) → Queue (list_heap {V = ℕ})
heap_queue limit nodes = record { limit = limit; seen = length nodes; heap = nodes }

-- Of four values offered to a queue of two places, the two of the highest priorities stay.
kept_two :
    PriorityQueue.merge_array list_heap half
      (heap_queue 2 [])
      ((3, 30) ∷ (9, 90) ∷ (1, 10) ∷ (0, 50) ∷ [])
    ≡ some (record { limit = 2; seen = 4; heap = (5, 50) ∷ (9, 90) ∷ [] })
unfolding PriorityQueue.merge_array extract
kept_two = refl

none_dropped : (n : ℕ) → Holds (laws {V = ℕ}) half (heap_queue n []) [] []
none_dropped n = record { selects = Selects-nil n; counted = refl }

-- Everything that was offered is held.
all_held :
    (limit : ℕ) (es : List (ℕ × ℕ))
    → length es ≤ limit
    → Holds (laws {V = ℕ}) half (heap_queue limit es) es []
all_held limit es fits = record {
  selects = record {
    together = rw (append-nil es) (Perm.refl es);
    least_dropped = λ e d _ m. absurd (not-mem-nil m);
    within = fits;
    full = λ h. absurd (omega arith);
  };
  counted = refl;
}

merge_array-Holds_example :
    (q' : Queue (list_heap {V = ℕ})) × (dropped' : List (ℕ × ℕ)) × (PriorityQueue.merge_array
        list_heap half
        (heap_queue 2 [])
        ((3, 30) ∷ (9, 90) ∷ (0, 50) ∷ [])
      ≡ some q')
    × Holds laws half q' (offers half [] ((3, 30) ∷ (9, 90) ∷ (0, 50) ∷ [])) dropped'
    × (q'.limit ≡ 2)
merge_array-Holds_example =
    merge_array-Holds laws half ((3, 30) ∷ (9, 90) ∷ (0, 50) ∷ []) (heap_queue 2 []) {offered = []}
      {dropped = []} (none_dropped 2)

set_limit-Holds_example :
    (dropped' : List (ℕ × ℕ)) × Holds laws half
      (PriorityQueue.set_limit list_heap (heap_queue 3 ((1, 10) ∷ (2, 20) ∷ (3, 30) ∷ [])) 2)
      ((1, 10) ∷ (2, 20) ∷ (3, 30) ∷ [])
      dropped'
set_limit-Holds_example =
    set_limit-Holds laws half (heap_queue 3 ((1, 10) ∷ (2, 20) ∷ (3, 30) ∷ [])) 2
      {offered = (1, 10) ∷ (2, 20) ∷ (3, 30) ∷ []} {dropped = []} (omega arith)
      (all_held 3 ((1, 10) ∷ (2, 20) ∷ (3, 30) ∷ []) (omega arith))

have_priorities : HasPriorities (laws {V = ℕ}) half ((1, 10) ∷ (2, 20) ∷ [])
have_priorities e m z =
    Or.elim ⊥_prop (mem-cons.0 m) (λ a. absurd (omega (arith, ap (λ (x : ℕ × ℕ). x.0) a)))
      (λ k.
        Or.elim ⊥_prop (mem-cons.0 k) (λ a. absurd (omega (arith, ap (λ (x : ℕ × ℕ). x.0) a)))
          (λ j. not-mem-nil j))

merge_queue-Drained_example :
    Drained laws half (heap_queue 1 []) (heap_queue 2 ((1, 10) ∷ (2, 20) ∷ [])) [] (
      PriorityQueue.merge_queue list_heap half
        (heap_queue 1 [])
        (heap_queue 2 ((1, 10) ∷ (2, 20) ∷ [])))
merge_queue-Drained_example =
    merge_queue-Drained laws half (heap_queue 1 []) (heap_queue 2 ((1, 10) ∷ (2, 20) ∷ []))
      {offered = []} {dropped = []} have_priorities (none_dropped 1)

abbrev fresh : Aggregator (list_heap {V = ℕ})
fresh = record {
  default_period = 60;
  period_ms = 60;
  default_limit = 1;
  limit = 1;
  items = heap_queue 1 [];
  seen_count = pos 0;
  sent_count = pos 0;
  dropped_count = pos 0;
}

add-Tally_example :
    (a' : Aggregator (list_heap {V = ℕ})) × (kept : Bool) × (dropped' : List (ℕ × ℕ))
    × (EventAggregator.add list_heap half fresh 70 7 ≡ some (a', kept))
    × Tally laws half fresh a'
    × Holds laws half a'.items ((7, 70) ∷ []) dropped'
add-Tally_example = add-Tally laws half fresh 70 7 {offered = []} {dropped = []} (none_dropped 1)

merge_events-Tally_example :
    (a' : Aggregator (list_heap {V = ℕ})) × (emptied : Queue (list_heap {V = ℕ})) × (offered'
      dropped' : List (ℕ × ℕ))
    × (EventAggregator.merge_events list_heap half fresh
          (some (heap_queue 2 ((1, 10) ∷ (2, 20) ∷ [])))
        ≡ some (a', some emptied))
    × (emptied.heap ≡ [])
    × Tally laws half fresh a'
    × Perm offered' ((1, 10) ∷ (2, 20) ∷ [])
    × Holds laws half a'.items offered' dropped'
merge_events-Tally_example =
    merge_events-Tally laws half fresh (heap_queue 2 ((1, 10) ∷ (2, 20) ∷ [])) {offered = []}
      {dropped = []} refl have_priorities (none_dropped 1)
