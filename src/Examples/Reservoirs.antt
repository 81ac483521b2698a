-- ===== src/Examples/Reservoirs.antt =====
-- Reservoirs of numbers.
use monis_agent.Common.{ℕ, ◌≡◌, refl, List, [], ◌∷◌, some, arith}
use monis_agent.Reservoir
use monis_agent.Reservoir.{Reservoir, add, set_limit, new}
use monis_agent.Reservoir.Full.{Call, adding, merging, limiting, run, IsFull, Solid, reached-IsFull}
use monis_agent.Reservoir.Holes.{add-holes}

abbrev first_place : ℕ → ℕ
first_place n = 0

abbrev calls : List (Call ℕ)
calls = merging first_place (1 ∷ 2 ∷ 3 ∷ 4 ∷ []) ∷ limiting 2 ∷ adding first_place 5 ∷ []

run_test : (run ℕ calls (new ℕ (some 3))).data_items ≡ some 5 ∷ some 2 ∷ []
unfolding run new Reservoir.merge add set_limit
run_test = refl

reached-IsFull_example : IsFull ℕ (run ℕ calls (new ℕ (some 3)))
unfolding new
reached-IsFull_example = reached-IsFull ℕ calls (some 3) (omega arith, tt)

abbrev turned_away : Reservoir ℕ
turned_away = record { limit = 2; seen = 20; data_items = some 1 ∷ some 2 ∷ [] }

add-holes_example : ¬ Solid ℕ (add ℕ (λ n. 7) 5 (set_limit ℕ 10 turned_away)).data_items
add-holes_example = add-holes ℕ (λ n. 7) 5 turned_away 10 (omega arith) (omega arith) (omega arith)
