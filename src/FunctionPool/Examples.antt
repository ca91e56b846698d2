-- ===== src/FunctionPool/Examples.antt =====
-- The retirement of a compute in the file store, whose first attempt another writer disturbs.
use infrastructure.Prelude.{
  ℕ, ◌==◌, str_eq, if◌then◌else◌, ◌≡◌, refl, sym, inl, inr, [], ◌∷◌, none, String, Result, ok, err,
  err-ok, Error, failure, wrap, is_not_found, false, Bool-cases, ap,
}
use infrastructure.Prelude.Dict.{value_at}
use infrastructure.State.{Files, resolve, split, clean, join, get, compare_and_swap}
use infrastructure.State.Contract.{Honours}
use infrastructure.State.Files.{file_store, file_store-Honours}
use infrastructure.Registry.{Resource, Registry, key, load, update_bytes}
use infrastructure.FunctionPool.{Compute, retired, retire_compute}
use infrastructure.FunctionPool.Retire.{Ends, retire_compute-Ends}

abbrev slot : String → Resource (Compute String)
slot text = record {
  api_version = "infra/v1";
  kind = "compute";
  uid = "c1";
  resource_version = "";
  body = record { meta = record { finalizers = []; deletion_timestamp = none }; rest = text };
}

abbrev read_slot : String → Result (Resource (Compute String))
read_slot bytes = if str_eq bytes "" then err (failure "no JSON") else ok (slot bytes)

abbrev slots : Registry Files (Compute String)
slots = record {
  store = file_store;
  codec = record {
    marshal = λ res. ok res.body.rest;
    unmarshal = read_slot;
    revision = λ bytes. bytes;
  };
  kind = "compute";
}

slot_path : resolve (key slots "c1") ≡ ok "compute/c1"
unfolding resolve split clean join key
slot_path = refl

slot_cell : Honours file_store (key slots "c1") (value_at "compute/c1")
slot_cell = file_store-Honours (key slots "c1") "compute/c1" slot_path

-- The first attempt leaves 15 more.
abbrev disturbed : ℕ → Files → Files
disturbed n s = if n == 15 then ("compute/c1", "b") ∷ [] else s

other_error :
    {A : Type 0} (e f : Error)
    → ◌≡◌ {A = Result A} (err e) (err f)
    → is_not_found f ≡ is_not_found e
other_error e f h = ap (λ r. elim r [ ok a ↦ false | err x ↦ is_not_found x ]) (sym h)

decodes :
    (old : String) (e : Error)
    → update_bytes slots (λ res. ok (retired 7 res)) old ≡ err e
    → is_not_found e ≡ false
unfolding update_bytes load
decodes old e h = elim (Bool-cases (str_eq old "")) [
  | inl x ↦ other_error (wrap "registry: unmarshal" (failure "no JSON")) e (rw x at h)
  | inr x ↦ absurd (err-ok (sym (rw x at h)))
]

retire_compute_example :
    Ends slots "c1" 7 disturbed
      (value_at "compute/c1")
      16
      (("compute/c1", "a") ∷ [])
      (retire_compute slots "c1" 7 disturbed (("compute/c1", "a") ∷ []))
retire_compute_example =
    retire_compute-Ends slots "c1" 7 disturbed (value_at "compute/c1") slot_cell (failure "no JSON")
      refl decodes (("compute/c1", "a") ∷ [])

-- The second attempt succeeds.
second : (retire_compute slots "c1" 7 disturbed (("compute/c1", "a") ∷ [])).0 ≡ ok tt
unfolding retire_compute update_bytes load value_at key get compare_and_swap
second = refl
