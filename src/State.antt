-- ===== src/State.antt =====
-- internal/state: the store that backs every declarative resource. The bytes of a value are a text.
-- A file of the file store is found by its path below the base directory; no key is a directory of
-- another, and reads and writes of files do not fail. The lock makes each write one step; its file,
-- .store.lock, is not among the files.
pub mod Paths
pub mod Files
pub mod Contract
mod Examples
use Prim.Native.Char.{Char, code}
use Prim.Native.String
use Prim.Native.String.{[], ◌∷◌}
use text.Mathlib.Text.{starts_with}
use infrastructure.Prelude.{
  Bool, true, false, not, ◌&&◌, ◌||◌, List, [], ◌∷◌, ◌++◌, Option, none, some, String, str_eq, ◌==◌,
  if◌then◌else◌, Result, ok, err, Error, not_found, failure,
}
use infrastructure.Prelude.Dict.{value_at, assign, discard}
use infrastructure.Prelude.Exec.{Exec}

-- The parts of a path between its slashes.
abbrev pub longer : Char → List String → List String
longer c [] = (c ∷ "") ∷ []
longer c (part ∷ parts) = (c ∷ part) ∷ parts

unfoldable pub split : String → List String
split [] = "" ∷ []
split (c ∷ s) = let rest = split s in if code c == b'/' then "" ∷ rest else longer c rest

-- The parts of a cleaned absolute path, the last first: `filepath.Clean`, where ".." stays at the root.
abbrev pub parent : List String → List String
parent [] = []
parent (part ∷ above) = above

unfoldable pub clean : List String → List String → List String
clean above [] = above
clean above (part ∷ parts) =
    clean
      (if str_eq part "" || str_eq part "."
        then above
        else if str_eq part ".."
        then parent above
        else part ∷ above)
      parts

unfoldable pub join : List String → String
join [] = ""
join (part ∷ []) = part
join (part ∷ above) = String.◌++◌ (join above) (String.◌++◌ "/" part)

abbrev pub path_of : List String → Result String
path_of [] = err (failure "state: invalid key")
path_of (part ∷ above) = ok (join (part ∷ above))

-- `resolve`: the path below the base directory.
unfoldable pub resolve : String → Result String
unfolding split clean join
resolve key =
    if str_eq key "" then err (failure "state: empty key") else path_of (clean [] (split key))

-- The files by their paths.
abbrev pub Files : Type 0
Files = List (String × String)

abbrev pub read_cell : Option String → Result String
read_cell none = err not_found
read_cell (some v) = ok v

abbrev pub read_file : Files → Result String → Result String
read_file fs (err e) = err e
read_file fs (ok path) = read_cell (value_at path fs)

unfoldable pub get : String → Exec Files String
unfolding resolve
get key fs = (read_file fs (resolve key), fs)

abbrev pub write_file : String → Files → Result String → Result (Unit {0}) × Files
write_file value fs (err e) = (err e, fs)
write_file value fs (ok path) = (ok tt, assign path value fs)

-- `Put`, and `putLocked`
unfoldable pub put : String → String → Exec Files (Unit {0})
unfolding resolve
put key value fs = write_file value fs (resolve key)

abbrev pub remove_file : Files → Result String → Result (Unit {0}) × Files
remove_file fs (err e) = (err e, fs)
remove_file fs (ok path) = (ok tt, discard path fs)

unfoldable pub delete : String → Exec Files (Unit {0})
unfolding resolve
delete key fs = remove_file fs (resolve key)

-- What follows a prefix.
unfoldable pub strip : String → String → Option String
strip [] s = some s
strip (c ∷ prefix) [] = none
strip (c ∷ prefix) (d ∷ s) = let rest = strip prefix s in if code c == code d then rest else none

unfoldable pub has_slash : String → Bool
has_slash [] = false
has_slash (c ∷ s) = code c == b'/' || has_slash s

-- A file directly in the directory `dir`, which is not a temporary one.
unfoldable pub is_listed : String → String → Bool
unfolding strip has_slash
is_listed dir path = elim (strip (String.◌++◌ dir "/") path) [
  | none ↦ false
  | some name ↦ not (has_slash name || starts_with name ".tmp-")
]

unfoldable pub listed : String → Files → Files
unfolding is_listed
listed dir [] = []
listed dir (f ∷ fs) = let rest = listed dir fs in if is_listed dir (f.0) then f ∷ rest else rest

abbrev pub list_dir : Files → Result String → Result Files
list_dir fs (err e) = err e
list_dir fs (ok dir) = ok (listed dir fs)

-- `List`, in the order in which the files are held, where the source's is by name.
unfoldable pub list : String → Exec Files Files
unfolding resolve listed
list prefix fs = (list_dir fs (resolve prefix), fs)

-- `bytes.Equal`, for which no bytes are empty bytes.
abbrev pub bytes_of : Option String → String
bytes_of none = ""
bytes_of (some v) = v

-- (oldValue == nil && !errors.Is(err, ErrNotFound)) || !bytes.Equal(current, oldValue)
abbrev pub differs : Option String → Option String → Bool
differs (some current) none = true
differs none none = false
differs current (some old) = not (str_eq (bytes_of current) old)

abbrev pub swap_file : Option String → String → Files → Result String → Result Bool × Files
swap_file old new fs (err e) = (err e, fs)
swap_file old new fs (ok path) =
    if differs (value_at path fs) old then (ok false, fs) else (ok true, assign path new fs)

unfoldable pub compare_and_swap : String → Option String → String → Exec Files Bool
unfolding resolve
compare_and_swap key old new fs = swap_file old new fs (resolve key)
