-- ===== src/Examples/Names.antt =====
-- Names of transactions.
use monis_agent.Common.{◌≡◌, ◌≢◌, refl, inl, [], ◌∷◌, none, some, true, false}
use monis_agent.Common.Text.{Text, codes, text_eq, to_upper_case, last?, init}
use monis_agent.NameState
use monis_agent.NameState.{
  NameState, Call, Piece, appending, popping, marking, reading, freezing, resetting, slash,
  join_from,
}
use monis_agent.NameState.Frozen.{full_name-frozen, marking-frozen}
use monis_agent.NameState.Cache.{path_of, get_path-calls, appending-stale}
use monis_agent.NameState.Stack.{append_all, pop_path-append_path}
use monis_agent.NameState.Slashes.{SingleSlashes, get_path-SingleSlashes}

-- The code of the module, for evaluation.
program : Unit {0}
unfolding NameState.calls NameState.new NameState.get_full_name NameState.get_name
    NameState.get_path NameState.build_name NameState.is_legacy text_eq to_upper_case last? init
program = tt

abbrev piece : Text → Piece (Unit {0})
piece p = record { path = p; params = none }

abbrev users : NameState (Unit {0})
users = record {
  prefix = some (codes "Expressjs");
  verb = some (codes "GET");
  delimiter = some (codes "/");
  path_stack = piece (codes "/users") ∷ [];
  path_cache = none;
  marked_path = [];
  frozen = false;
}

users_name :
    (NameState.get_full_name
      (Unit {0})
      (NameState.calls users (appending (some (codes ":id")) none ∷ []))).1
    ≡ some (codes "Expressjs/GET//users/:id")
unfolding program
users_name = refl

abbrev frozen_users : NameState (Unit {0})
frozen_users = record users { frozen = true }

full_name-frozen_example :
    (NameState.get_full_name (Unit {0}) (
      NameState.calls frozen_users
        (reading ∷ appending (some (codes "x")) none ∷ resetting ∷ []))).1
    ≡ (NameState.get_full_name (Unit {0}) frozen_users).1
full_name-frozen_example =
    full_name-frozen (reading ∷ appending (some (codes "x")) none ∷ resetting ∷ []) frozen_users
      refl ((λ e. cc), ((λ e. cc), ((λ e. cc), tt)))

abbrev marked : NameState (Unit {0})
marked = record users { path_stack = []; marked_path = piece (codes "/users") ∷ []; frozen = true }

marking-frozen_example :
    ((NameState.get_path (Unit {0}) marked).1 ≢ none)
    × ((NameState.get_path (Unit {0}) (NameState.call marked marking)).1 ≡ none)
marking-frozen_example = marking-frozen marked refl refl (λ e. cc) refl

get_path-calls_example :
    (NameState.get_path (Unit {0}) (
      NameState.calls
        (NameState.new (Unit {0}) none none none none)
        (appending (some (codes "/users")) none ∷ reading ∷ marking ∷ popping none ∷ []))).1
    ≡ path_of (
        NameState.calls
          (NameState.new (Unit {0}) none none none none)
          (appending (some (codes "/users")) none ∷ reading ∷ marking ∷ popping none ∷ []))
unfolding program join_from
get_path-calls_example =
    get_path-calls (Unit {0}) none none none none
      (appending (some (codes "/users")) none ∷ reading ∷ marking ∷ popping none ∷ [])
      (tt, (tt, (inl (λ e. cc), (tt, tt))))

appending-stale_example :
    ((NameState.get_path (Unit {0}) (
        NameState.call
          (record marked { frozen = false; path_cache = some (codes "/users") })
          (appending (some []) none))).1
      ≡ some (codes "/users"))
    × (path_of (
          NameState.call
            (record marked { frozen = false; path_cache = some (codes "/users") })
            (appending (some []) none))
        ≡ some (slash ∷ []))
appending-stale_example =
    appending-stale (record marked { frozen = false; path_cache = some (codes "/users") }) none
      (codes "/users") refl refl refl (λ e. cc) (λ e. cc)

pop_path-append_path_example :
    (NameState.call
      (NameState.calls
        (NameState.call users (appending (some (codes "/a")) none))
        (append_all (codes "/b" ∷ codes "/c" ∷ [])))
      (popping (some (codes "/a")))).path_stack
    ≡ piece (codes "/users") ∷ []
unfolding text_eq
pop_path-append_path_example =
    pop_path-append_path users (codes "/a") none (codes "/b" ∷ codes "/c" ∷ []) refl
      (refl, (refl, tt))

get_path-SingleSlashes_example :
    ((rest : Text) × (codes "/users" ≡ slash ∷ rest)) × SingleSlashes (codes "/users")
unfolding NameState.get_path join_from
get_path-SingleSlashes_example =
    get_path-SingleSlashes users (codes "/users") refl
      ((refl, (refl, (refl, (refl, (refl, tt))))), tt) refl
