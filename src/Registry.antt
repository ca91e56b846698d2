-- ===== src/Registry.antt =====
-- internal/registry/registry.go: the typed layer over a store, with optimistic concurrency. `B` is
-- what a resource holds beside the fields of its envelope that are read here. The JSON codec of Go's
-- library and the digest are parameters.
pub mod Writes
pub mod Updates
pub mod Progress
mod Examples
use Prim.Native.String
use text.Mathlib.Text.{find?}
use infrastructure.Prelude.{
  ℕ, Bool, true, false, ◌||◌, List, [], ◌∷◌, Option, none, some, String, str_eq, if◌then◌else◌,
  Result, ok, err, Error, not_found, conflict, failure, wrap, is_not_found, ◌>>=◌,
}
use infrastructure.Prelude.Exec.{Exec}
use infrastructure.State.Contract.{Store}

-- `Resource`, with the UID and the resource version of its metadata.
pub record Resource (B : Type 0) : Type 0 where
  pub api_version : String
  pub kind : String
  pub uid : String
  pub resource_version : String
  pub body : B

-- json.Marshal, json.Unmarshal, and `revision`.
pub record Codec (B : Type 0) : Type 0 where
  pub marshal : Resource B → Result String
  pub unmarshal : String → Result (Resource B)
  pub revision : String → String

abbrev pub the_api_version : String
the_api_version = "infra/v1"

abbrev pub wrapped {ℓ} : {A : Type ℓ} → String → Result A → Result A
wrapped context (ok a) = ok a
wrapped context (err e) = err (wrap context e)

pub record Registry (S B : Type 0) : Type 0 where
  pub store : Store S
  pub codec : Codec B
  pub kind : String

module _ {S B : Type 0} (r : Registry S B) where
  open r use {store, codec, kind}

  unfoldable pub key : String → String
  key uid = String.◌++◌ kind (String.◌++◌ "/" uid)

  -- The envelope that is written: stamped, and without a revision.
  abbrev pub stamped : Resource B → Resource B
  stamped res = record res { api_version = the_api_version; kind = kind; resource_version = "" }

  -- The bytes that `Put` expects to replace, of which it has read `old`.
  abbrev pub expect : String → Result String → Result (Option String)
  expect expected (err e) = if is_not_found e then err conflict else err e
  expect expected (ok old) =
      if str_eq (codec.revision old) expected then ok (some old) else err conflict

  -- What `Put` reads before it swaps.
  unfoldable pub read_expected : Resource B → Exec S (Option String)
  unfolding key
  read_expected res s =
      if str_eq res.resource_version ""
      then (ok none, s)
      else (let (old, s') = store.get (key res.uid) s in (expect res.resource_version old, s'))

  -- After the swap: the resource with its new revision.
  abbrev pub stored : Resource B → String → Result Bool → Result (Resource B)
  stored res bytes (err e) = err (wrap "registry: put" e)
  stored res bytes (ok false) = err conflict
  stored res bytes (ok true) = ok (record res {
    api_version = the_api_version;
    kind = kind;
    resource_version = codec.revision bytes;
  })

  unfoldable pub swap_in : Resource B → String → Option String → Exec S (Resource B)
  unfolding key
  swap_in res bytes old s =
      let (w, s') = store.compare_and_swap (key res.uid) old bytes s in (stored res bytes w, s')

  abbrev pub put_read : Resource B → String → Result (Option String) → Exec S (Resource B)
  put_read res bytes (err e) s = (err e, s)
  put_read res bytes (ok old) s = swap_in res bytes old s

  abbrev pub put_bytes : Resource B → Result String → Exec S (Resource B)
  put_bytes res (err e) s = (err (wrap "registry: marshal" e), s)
  put_bytes res (ok bytes) s = let (old, s') = read_expected res s in put_read res bytes old s'

  -- `Put` of a resource that is not nil.
  unfoldable pub put : Resource B → Exec S (Resource B)
  unfolding read_expected swap_in
  put res s =
      if str_eq res.uid ""
      then (err (failure "registry: resource has empty UID"), s)
      else put_bytes res (codec.marshal (stamped res)) s

  -- The resource that some bytes are, with their revision.
  unfoldable pub load : String → Result (Resource B)
  load bytes = do
    res ← wrapped "registry: unmarshal" (codec.unmarshal bytes)
    ok (record res { resource_version = codec.revision bytes })

  unfoldable pub get : String → Exec S (Resource B)
  unfolding key load
  get uid s = let (bytes, s') = store.get (key uid) s in (bytes >>= load, s')

  unfoldable pub delete : String → Exec S (Unit {0})
  unfolding key
  delete uid s = let (done, s') = store.delete (key uid) s in (wrapped "registry: delete" done, s')

  -- The bytes that `TryUpdate` writes in place of others.
  unfoldable pub update_bytes : (Resource B → Result (Resource B)) → String → Result String
  unfolding load
  update_bytes mutate old = do
    res ← load old
    changed ← mutate res
    wrapped "registry: marshal" (codec.marshal (stamped changed))

  abbrev pub swap_update : String → String → Result String → Exec S Bool
  swap_update uid old (err e) s = (err e, s)
  swap_update uid old (ok new) s =
      let (w, s') = store.compare_and_swap (key uid) (some old) new s in
      (wrapped "registry: swap" w, s')

  abbrev pub update_read : String → (Resource B → Result (Resource B)) → Result String → Exec S Bool
  update_read uid mutate (err e) s = (err (wrap "registry: get" e), s)
  update_read uid mutate (ok old) s = swap_update uid old (update_bytes mutate old) s

  unfoldable pub try_update : String → (Resource B → Result (Resource B)) → Exec S Bool
  unfolding key update_bytes
  try_update uid mutate s = let (old, s') = store.get (key uid) s in update_read uid mutate old s'

  unfoldable pub load_all : List (String × String) → Result (List (Resource B))
  unfolding load
  load_all [] = ok []
  load_all (kv ∷ kvs) = do let rest = load_all kvs; res ← load (kv.1); more ← rest; ok (res ∷ more)

  unfoldable pub list : Exec S (List (Resource B))
  unfolding load_all
  list s = let (kvs, s') = store.list kind s in (wrapped "registry: list" kvs >>= load_all, s')

  abbrev pub contains : String → String → Bool
  contains text part = elim (find? text part) [ none ↦ false | some i ↦ true ]

  -- `LookupMetadata`, of which the envelope is read.
  unfoldable pub lookup_metadata : String → String → Exec S (Resource B)
  lookup_metadata of_kind uid s =
      if str_eq uid "."
        || str_eq uid ".."
        || contains uid "/"
        || contains uid "\\"
        || contains uid "\0"
      then (err (failure "invalid reference uid"), s)
      else (let (bytes, s') = store.get (String.◌++◌ of_kind (String.◌++◌ "/" uid)) s in
          (bytes >>= codec.unmarshal, s'))
