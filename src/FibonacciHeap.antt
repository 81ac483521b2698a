-- ===== src/FibonacciHeap.antt =====
-- The package `@tyriar/fibonacci-heap`, on which lib/priority-queue.js stands, as an interface: the
-- operations that the queue calls, and the documented behaviour of a minimum heap. `nodes` is what
-- a walk over the `child` and `next` links meets from the minimum on, as (key, value) pairs.
use monis_agent.Common.{ℕ, ◌≤◌, ◌≡◌, List, [], ◌∷◌, Option, none, some, length}
use mathlib.Core.List.{Mem, Perm}

pub record FibonacciHeap {ℓ} (V : Type ℓ) : Type (ℓ + 1) where
  pub Heap : Type ℓ
  pub empty : Heap
  pub insert : ℕ → V → Heap → Heap
  pub find_minimum : Heap → Option (ℕ × V)
  pub extract_minimum : Heap → Option ((ℕ × V) × Heap)
  pub node_count : Heap → ℕ
  pub nodes : Heap → List (ℕ × V)

-- What the package promises. Nothing is said of the order in which a walk meets the nodes, nor of
-- which of several least nodes is found.
pub record IsMinHeap {ℓ} {V : Type ℓ} (h : FibonacciHeap V) : Type ℓ where
  pub nodes-empty : h.nodes h.empty ≡ []
  pub nodes-insert :
      (k : ℕ) (v : V) (t : h.Heap) → Perm (h.nodes (h.insert k v t)) ((k, v) ∷ h.nodes t)
  pub node_count-nodes : (t : h.Heap) → h.node_count t ≡ length (h.nodes t)
  pub find_minimum-none : (t : h.Heap) → h.find_minimum t ≡ none → h.nodes t ≡ []
  pub find_minimum-mem : (t : h.Heap) (m : ℕ × V) → h.find_minimum t ≡ some m → Mem m (h.nodes t)
  pub find_minimum-le :
      (t : h.Heap) (m e : ℕ × V) → h.find_minimum t ≡ some m → Mem e (h.nodes t) → m.0 ≤ e.0
  pub extract_minimum-none : (t : h.Heap) → h.extract_minimum t ≡ none → h.nodes t ≡ []
  pub extract_minimum-nodes :
      (t t' : h.Heap) (m : ℕ × V)
      → h.extract_minimum t ≡ some (m, t')
      → Perm (h.nodes t) (m ∷ h.nodes t')
  pub extract_minimum-le :
      (t t' : h.Heap) (m e : ℕ × V)
      → h.extract_minimum t ≡ some (m, t')
      → Mem e (h.nodes t')
      → m.0 ≤ e.0
