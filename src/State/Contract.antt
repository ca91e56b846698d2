-- ===== src/State/Contract.antt =====
-- internal/state/store.go: the operations of a store, and what their clients rely on.
use infrastructure.Prelude.{◌≡◌, ◌≢◌, Bool, true, false, List, Option, none, some, String, ok}
use infrastructure.Prelude.Exec.{Exec}
use infrastructure.State.{read_cell}

pub record Store (S : Type 0) : Type 0 where
  pub get : String → Exec S String
  pub put : String → String → Exec S (Unit {0})
  pub delete : String → Exec S (Unit {0})
  pub list : String → Exec S (List (String × String))
  pub compare_and_swap : String → Option String → String → Exec S Bool

-- What the operations on one key do: `cell` is what the store holds under it. Empty bytes that are
-- not absent are no value to swap.
pub record Honours {S : Type 0} (store : Store S) (key : String) (cell : S → Option String)
    : Type 0 where
  pub reads : (s : S) → store.get key s ≡ (read_cell (cell s), s)
  pub writes : (v : String) (s : S) → cell (store.put key v s).1 ≡ some v
  pub removes : (s : S) → cell (store.delete key s).1 ≡ none
  pub swaps :
      (old : Option String) (new : String) (s : S)
      → cell s ≡ old
      → ((store.compare_and_swap key old new s).0 ≡ ok true)
        × (cell (store.compare_and_swap key old new s).1 ≡ some new)
  pub refuses :
      (old : Option String) (new : String) (s : S)
      → cell s ≢ old
      → old ≢ some ""
      → store.compare_and_swap key old new s ≡ (ok false, s)
