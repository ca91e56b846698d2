-- ===== src/State/Files.antt =====
-- The file store does what a store promises.
use infrastructure.Prelude.{
  ◌≡◌, ◌≢◌, refl, ap, true, false, Option, none, some, String, eq_iff, eq_refl, ok, arith,
  Bool-cases, inl, inr,
}
use infrastructure.Prelude.Dict.{value_at, value_at-assign, value_at-discard}
use infrastructure.State.{Files, resolve, get, put, delete, list, compare_and_swap, differs}
use infrastructure.State.Contract.{Store, Honours}

abbrev pub file_store : Store Files
file_store = record {
  get = get;
  put = put;
  delete = delete;
  list = list;
  compare_and_swap = compare_and_swap;
}

differs-false : (a b : Option String) → differs a b ≡ false → b ≢ some "" → a ≡ b
differs-false none none h n = refl
differs-false (some a) none h n = absurd (ground arith)
differs-false none (some b) h n = absurd (n (ap some (ground (arith, h, eq_iff "" b))))
differs-false (some a) (some b) h n = ap some (ground (arith, h, eq_iff a b))

differs_refl : (a : Option String) → differs a a ≡ false
differs_refl none = refl
differs_refl (some a) = ground (arith, eq_refl a)

pub file_store-Honours :
    (key path : String) → resolve key ≡ ok path → Honours file_store key (value_at path)
unfolding get put delete compare_and_swap
file_store-Honours key path e = record {
  reads = λ fs. rw e refl;
  writes = λ v fs. rw e (ground (arith, value_at-assign path path v fs, eq_refl path));
  removes = λ fs. rw e (ground (arith, value_at-discard path path fs, eq_refl path));
  swaps = λ old new fs h.
      let same : differs (value_at path fs) old ≡ false = rw h (differs_refl old) in
      rw (e, same) (refl, ground (arith, value_at-assign path path new fs, eq_refl path));
  refuses = λ old new fs h n. elim (Bool-cases (differs (value_at path fs) old)) [
    | inl d ↦ rw (e, d) refl
    | inr d ↦ absurd (h (differs-false (value_at path fs) old d n))
  ];
}

-- What the file store does at a key and its path.
pub record IsKept (key path : String) : Type 0 where
  pub honours : Honours file_store key (value_at path)
  pub put_succeeds : (v : String) (fs : Files) → (put key v fs).0 ≡ ok tt
  pub delete_succeeds : (fs : Files) → (delete key fs).0 ≡ ok tt
  pub empty_is_absent :
      (new : String) (fs : Files)
      → value_at path fs ≡ none
      → ((compare_and_swap key (some "") new fs).0 ≡ ok true)
        × (value_at path (compare_and_swap key (some "") new fs).1 ≡ some new)
  pub put_elsewhere :
      (other v : String) (fs : Files)
      → other ≢ path
      → value_at other (put key v fs).1 ≡ value_at other fs
  pub delete_elsewhere :
      (other : String) (fs : Files)
      → other ≢ path
      → value_at other (delete key fs).1 ≡ value_at other fs
  pub swap_elsewhere :
      (other : String) (old : Option String) (new : String) (fs : Files)
      → other ≢ path
      → value_at other (compare_and_swap key old new fs).1 ≡ value_at other fs

-- The file that `withWriteLock` creates among the others; the files here are without it.
abbrev pub lock_path : String
lock_path = ".store.lock"
