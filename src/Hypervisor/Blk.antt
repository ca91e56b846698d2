-- ===== src/Hypervisor/Blk.antt =====
-- internal/hypervisor/virtio/blk.go: what a virtio block device does with a request. The file behind
-- it is a parameter: what its reads, writes and syncs do. An offset is a byte offset below 2^63, and
-- the sum of an offset and a length is taken not to exceed it.
pub mod Requests
pub mod Notify
mod Examples
use infrastructure.Prelude.{
  ℕ, zero, suc, ◌+◌, ◌*◌, ◌/◌, ◌≤◌, Bool, true, false, List, [], ◌∷◌, ◌++◌, Option, none, some,
  ◌==◌, ltb, if◌then◌else◌, length,
}
use infrastructure.Hypervisor.Word.{u32}
use infrastructure.Hypervisor.Memory.{Memory, View, put_byte, u32_at, u64_at}
use infrastructure.Hypervisor.VirtQueue.{Segment, Chain}

-- `BlockBackend`: a read gives bytes and whether its error is none or the end of the file; a write
-- gives how many bytes were written and whether it succeeded.
pub record BlockBackend (S : Type 0) : Type 0 where
  pub read_at : ℕ → ℕ → S → List ℕ × Bool
  pub write_at : List ℕ → ℕ → S → (ℕ × Bool) × S
  pub sync : S → Bool × S

pub data Status : Type 0 where
  status_ok status_io_err status_unsupp : Status

abbrev pub status_byte : Status → ℕ
status_byte status_ok = 0
status_byte status_io_err = 1
status_byte status_unsupp = 2

-- The bytes of a buffer, and bytes written from an address on.
unfoldable pub bytes_of : Memory → ℕ → ℕ → List ℕ
bytes_of m a zero = []
bytes_of m a (suc n) = m.byte a ∷ bytes_of m (a + 1) n

unfoldable pub put_bytes : Memory → ℕ → List ℕ → Memory
put_bytes m a [] = m
put_bytes m a (b ∷ bs) = put_bytes (put_byte m a b) (a + 1) bs

-- The guest's memory and the file after a request, the status, and the bytes written.
pub record Answer (S : Type 0) : Type 0 where
  pub memory : Memory
  pub file : S
  pub status : Status
  pub written : ℕ

module _ {S : Type 0} (backend : BlockBackend S) (readonly : Bool) where
  -- The loop of a read.
  unfoldable pub read_segments : Memory → S → ℕ → ℕ → List Segment → Answer S
  unfolding put_bytes
  read_segments m σ offset written [] = record {
    memory = m;
    file = σ;
    status = status_ok;
    written = written;
  }
  read_segments m σ offset written (s ∷ ss) =
      let (bs, good) = backend.read_at (s.buffer).count offset σ in
      let m' = put_bytes m (s.buffer).start bs in
      let written' = u32 (written + length bs) in
      let rest = read_segments m' σ (offset + length bs) written' ss in
      if good
      then rest
      else record { memory = m'; file = σ; status = status_io_err; written = written' }

  -- The loop of a write.
  unfoldable pub write_segments : Memory → S → ℕ → List Segment → Answer S
  unfolding bytes_of
  write_segments m σ offset [] = record { memory = m; file = σ; status = status_ok; written = 0 }
  write_segments m σ offset (s ∷ ss) =
      let ((n, good), σ') =
        backend.write_at (bytes_of m (s.buffer).start (s.buffer).count) offset σ in
      let rest = write_segments m σ' (offset + n) ss in
      if good then rest else record { memory = m; file = σ'; status = status_io_err; written = 0 }

  unfoldable pub execute : Memory → S → ℕ → ℕ → List Segment → Answer S
  unfolding read_segments write_segments
  execute m σ req_type offset segments =
      if req_type == 0
      then read_segments m σ offset 0 segments
      else if req_type == 1
      then (if readonly
          then record { memory = m; file = σ; status = status_io_err; written = 0 }
          else write_segments m σ offset segments)
      else if req_type == 4
      then (let (good, σ') = backend.sync σ in
          record {
            memory = m;
            file = σ';
            status = if good then status_ok else status_io_err;
            written = 0;
          })
      else record { memory = m; file = σ; status = status_unsupp; written = 0 }

  -- A request of a header, data segments and a status segment.
  unfoldable pub handle_parts : Memory → S → Segment → List Segment → Segment → Memory × S × ℕ
  unfolding execute
  handle_parts m σ header segments status =
      if ltb (header.buffer).count 16
      then (m, σ, 0)
      else if ltb (status.buffer).count 1
      then (m, σ, 0)
      else if ltb 0x3fffffffffffff (u64_at m ((header.buffer).start + 8))
      then (put_byte m (status.buffer).start 1, σ, 1)
      else (let a =
            execute m σ (u32_at m (header.buffer).start)
              (u64_at m ((header.buffer).start + 8) * 512) segments in
          (
            put_byte a.memory (status.buffer).start (status_byte a.status),
            a.file,
            u32 (a.written + 1),
          ))

  -- The last segment, and those before it.
  unfoldable pub split_last : Segment → List Segment → List Segment × Segment
  split_last s [] = ([], s)
  split_last s (t ∷ ts) = let (before, last) = split_last t ts in (s ∷ before, last)

  -- `handleRequest`: the memory and the file afterwards, and the length for the used ring.
  unfoldable pub handle_request : Memory → S → List Segment → Memory × S × ℕ
  unfolding handle_parts split_last
  handle_request m σ [] = (m, σ, 0)
  handle_request m σ (s ∷ []) = (m, σ, 0)
  handle_request m σ (header ∷ s ∷ ss) =
      let (segments, status) = split_last s ss in handle_parts m σ header segments status
