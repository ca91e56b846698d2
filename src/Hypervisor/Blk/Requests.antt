-- ===== src/Hypervisor/Blk/Requests.antt =====
-- What a request can do to the file and to the used ring.
use infrastructure.Prelude.{
  ℕ, ◌+◌, ◌*◌, ◌≤◌, ◌≡◌, refl, inl, inr, Bool, true, List, [], ◌∷◌, length, arith, Bool-cases,
}
use infrastructure.Hypervisor.Word.{u32}
use infrastructure.Hypervisor.Memory.{Memory, u32_at, u64_at}
use infrastructure.Hypervisor.VirtQueue.{Segment}
use infrastructure.Hypervisor.Blk.{
  BlockBackend, put_bytes, bytes_of, read_segments, write_segments, execute, handle_parts,
  split_last, handle_request,
}

module _ {S : Type 0} (backend : BlockBackend S) where
  read_segments-file :
      (ro : Bool) (σ : S) (ss : List Segment) (m : Memory) (offset written : ℕ)
      → (read_segments backend ro m σ offset written ss).file ≡ σ
  unfolding read_segments
  read_segments-file ro σ [] m offset written = refl
  read_segments-file ro σ (s ∷ ss) m offset written =
      elim (Bool-cases (backend.read_at (s.buffer).count offset σ).1) [
        | inl e ↦ rw e (read_segments-file ro σ ss _ _ _)
        | inr e ↦ rw e refl
      ]

  execute-file :
      (m : Memory) (σ : S) (t offset : ℕ) (ss : List Segment)
      → ((τ : S) → (backend.sync τ).1 ≡ τ)
      → (execute backend true m σ t offset ss).file ≡ σ
  unfolding execute
  execute-file m σ t offset ss h = ground (arith, read_segments-file true σ ss m offset 0, h σ)

  handle_parts-file :
      (m : Memory) (σ : S) (header : Segment) (ss : List Segment) (status : Segment)
      → ((τ : S) → (backend.sync τ).1 ≡ τ)
      → (handle_parts backend true m σ header ss status).1 ≡ σ
  unfolding handle_parts
  handle_parts-file m σ header ss status h = ground (
    arith,
    execute-file m σ (u32_at m (header.buffer).start) (u64_at m ((header.buffer).start + 8) * 512)
        ss h,
  )

  -- A request to a read-only device leaves the file as it is, where a sync does.
  pub handle_request-readonly :
      ((τ : S) → (backend.sync τ).1 ≡ τ)
      → (m : Memory) (σ : S) (segments : List Segment)
      → (handle_request backend true m σ segments).1 ≡ σ
  unfolding handle_request
  handle_request-readonly h m σ [] = refl
  handle_request-readonly h m σ (s ∷ []) = refl
  handle_request-readonly h m σ (header ∷ s ∷ ss) =
      handle_parts-file m σ header (split_last backend true s ss).0 (split_last backend true s ss).1
        h

-- The segments behind the header.
abbrev pub behind_header : List Segment → List Segment
behind_header [] = []
behind_header (header ∷ ss) = ss

-- How many bytes the segments have.
abbrev pub total_count : List Segment → ℕ
total_count [] = 0
total_count (s ∷ ss) = (s.buffer).count + total_count ss

module _ {S : Type 0} (backend : BlockBackend S) (ro : Bool)
    (reads : (n offset : ℕ) (τ : S) → length (backend.read_at n offset τ).0 ≤ n) where
  read_segments-written :
      (σ : S) (ss : List Segment) (m : Memory) (offset written : ℕ)
      → (read_segments backend ro m σ offset written ss).written ≤ written + total_count ss
  unfolding read_segments
  read_segments-written σ [] m offset written = omega arith
  read_segments-written σ (s ∷ ss) m offset written =
      let (bs, good) = backend.read_at (s.buffer).count offset σ in
      let n = reads (s.buffer).count offset σ in
      let rest =
        read_segments-written σ ss (put_bytes m (s.buffer).start bs) (offset + length bs)
          (u32 (written + length bs)) in
      elim (Bool-cases good) [
        | inl e ↦ rw e (omega (arith, n, rest))
        | inr e ↦ rw e (omega (arith, n))
      ]

  write_segments-written :
      (ss : List Segment) (m : Memory) (σ : S) (offset : ℕ)
      → (write_segments backend ro m σ offset ss).written ≡ 0
  unfolding write_segments
  write_segments-written [] m σ offset = refl
  write_segments-written (s ∷ ss) m σ offset =
      let ((n, good), σ') =
        backend.write_at (bytes_of m (s.buffer).start (s.buffer).count) offset σ in
      let rest = write_segments-written ss m σ' (offset + n) in
      elim (Bool-cases good) [ inl e ↦ rw e rest | inr e ↦ rw e refl ]

  execute-written :
      (m : Memory) (σ : S) (t offset : ℕ) (ss : List Segment)
      → (execute backend ro m σ t offset ss).written ≤ total_count ss
  unfolding execute
  execute-written m σ t offset ss =
      ground (arith, read_segments-written σ ss m offset 0, write_segments-written ss m σ offset)

  handle_parts-written :
      (m : Memory) (σ : S) (header : Segment) (ss : List Segment) (status : Segment)
      → (handle_parts backend ro m σ header ss status).2 ≤ total_count ss + (status.buffer).count
  unfolding handle_parts
  handle_parts-written m σ header ss status = ground (
    arith,
    execute-written m σ (u32_at m (header.buffer).start)
        (u64_at m ((header.buffer).start + 8) * 512) ss,
  )

  split_last-total_count :
      (s : Segment) (ss : List Segment)
      → total_count (split_last backend ro s ss).0 + ((split_last backend ro s ss).1.buffer).count
        ≡ total_count (s ∷ ss)
  unfolding split_last
  split_last-total_count s [] = omega arith
  split_last-total_count s (t ∷ ts) = omega (arith, split_last-total_count t ts)

  -- The length that a request puts on the used ring is at most the length of the segments behind its
  -- header, the status included, where a read of the file gives at most the bytes that it was asked
  -- for.
  pub handle_request-written :
      (m : Memory) (σ : S) (segments : List Segment)
      → (handle_request backend ro m σ segments).2 ≤ total_count (behind_header segments)
  unfolding handle_request
  handle_request-written m σ [] = omega arith
  handle_request-written m σ (s ∷ []) = omega arith
  handle_request-written m σ (header ∷ s ∷ ss) = omega (
    arith,
    handle_parts-written m σ header (split_last backend ro s ss).0 (split_last backend ro s ss).1,
    split_last-total_count s ss,
  )
