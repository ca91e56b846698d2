-- ===== src/Registry/Examples.antt =====
-- A registry over the file store, whose resources hold a text and are encoded as it.
use infrastructure.Prelude.{
  ℕ, str_eq, if◌then◌else◌, ◌≡◌, ◌≢◌, refl, [], ◌∷◌, some, String, Result, ok, err, not_found,
  failure,
}
use infrastructure.Prelude.Dict.{value_at}
use infrastructure.State.{Files, resolve, split, clean, join}
use infrastructure.State.Contract.{Honours}
use infrastructure.State.Files.{file_store, file_store-Honours}
use infrastructure.Registry.{Resource, Registry, key, put, put_read, read_expected, update_bytes}
use infrastructure.Registry.Writes.{Replaces, Races, put-Replaces, put_read-Races}
use infrastructure.Registry.Updates.{
  System, act, replay, reads, writes, run, IsReplayed, run-replay,
}
use infrastructure.Registry.Progress.{write-progress}

abbrev note : String → Resource String
note text = record {
  api_version = "infra/v1";
  kind = "Note";
  uid = "n1";
  resource_version = "";
  body = text;
}

abbrev decoded : String → Result (Resource String)
decoded bytes = if str_eq bytes "" then err (failure "no JSON") else ok (note bytes)

abbrev notes : Registry Files String
notes = record {
  store = file_store;
  codec = record { marshal = λ res. ok res.body; unmarshal = decoded; revision = λ bytes. bytes };
  kind = "Note";
}

note_path : resolve (key notes "n1") ≡ ok "Note/n1"
unfolding resolve split clean join key
note_path = refl

note_cell : Honours file_store (key notes "n1") (value_at "Note/n1")
note_cell = file_store-Honours (key notes "n1") "Note/n1" note_path

named : ◌≢◌ {A = String} "n1" ""
named e = cc

fresh_note : value_at {V = String} "Note/n1" [] ≢ some ""
unfolding value_at
fresh_note e = cc

-- A resource that is expected to be new.
put_example :
    Replaces notes
      (note "b")
      "b"
      (value_at "Note/n1")
      note_cell
      (value_at "Note/n1" [])
      (put notes (note "b") [])
      []
put_example = put-Replaces notes (note "b") "b" (value_at "Note/n1") note_cell [] named refl

-- Another writer comes first.
put_read_example :
    Races notes
      (note "b")
      "b"
      (value_at "Note/n1")
      note_cell
      (value_at "Note/n1" (("Note/n1", "a") ∷ []))
      (put_read notes (note "b") "b" (read_expected notes (note "b") []).0 (("Note/n1", "a") ∷ []))
      (("Note/n1", "a") ∷ [])
put_read_example =
    put_read-Races notes (note "b") "b" (value_at "Note/n1") note_cell [] (("Note/n1", "a") ∷ [])
      fresh_note

-- Two writers read before either of them writes.
run_example :
    IsReplayed notes "n1"
      (λ w res. ok (record res { body = "z" }))
      (value_at "Note/n1")
      note_cell
      "a"
      (run notes "n1"
        (λ w res. ok (record res { body = "z" }))
        (reads 0 ∷ reads 1 ∷ writes 0 ∷ writes 1 ∷ [])
        (record { now = ("Note/n1", "a") ∷ []; held = λ w. err not_found; applied = [] }))
unfolding value_at
run_example =
    run-replay notes "n1" (λ w res. ok (record res { body = "z" })) (value_at "Note/n1") note_cell
      (reads 0 ∷ reads 1 ∷ writes 0 ∷ writes 1 ∷ []) "a" (("Note/n1", "a") ∷ [])
      (λ w. err not_found) (failure "no JSON") refl refl

abbrev rewrite : ℕ → Resource String → Result (Resource String)
rewrite w res = ok (record res { body = "z" })

abbrev before : System Files
before = record { now = ("Note/n1", "a") ∷ []; held = λ w. err not_found; applied = [] }

-- Between the read and the write of writer 0, writer 1 reads.
write-progress_example :
    (act notes "n1" rewrite
      (writes 0)
      (run notes "n1" rewrite (reads 1 ∷ []) (act notes "n1" rewrite (reads 0) before))).applied
    ≡ 0 ∷ []
unfolding value_at replay update_bytes act run
write-progress_example =
    write-progress notes "n1" rewrite (value_at "Note/n1") note_cell 0 (reads 1 ∷ []) "a" "a" "z"
      before (failure "no JSON") refl refl refl refl ((λ e. cc), tt) refl
