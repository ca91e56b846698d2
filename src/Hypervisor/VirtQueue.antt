-- ===== src/Hypervisor/VirtQueue.antt =====
-- internal/hypervisor/virtio/queue.go: the split virtqueue of a device, over the guest's memory.
-- The mutex makes each call one step.
pub mod Chains
pub mod Rings
pub mod Unsized
pub mod Wrapped
use infrastructure.Prelude.{
  ℕ, zero, suc, ◌+◌, ◌*◌, ◌%◌, String, Bool, true, false, List, [], ◌∷◌, ◌++◌, Option, none, some,
  ◌==◌, if◌then◌else◌,
}
use infrastructure.Hypervisor.Word.{bit, u16, u64}
use infrastructure.Hypervisor.Transport.{Queue}
use infrastructure.Hypervisor.Memory.{
  Outcome, done, failed, crashed, ◌>>=◌, Memory, View, slice, u16_at, u32_at, u64_at, put_u16_at,
  put_u32_at,
}

pub record Segment : Type 0 where
  pub buffer : View
  pub writable : Bool

pub record Chain : Type 0 where
  pub head_index : ℕ
  pub segments : List Segment

unfoldable pub total_writable_len : List Segment → ℕ
total_writable_len [] = 0
total_writable_len (s ∷ ss) = (if s.writable then (s.buffer).count else 0) + total_writable_len ss

pub record VirtQueue : Type 0 where
  pub size : ℕ
  pub desc_addr : ℕ
  pub avail_addr : ℕ
  pub used_addr : ℕ
  pub last_avail_idx : ℕ

unfoldable pub new_virt_queue : Queue → VirtQueue
new_virt_queue q = record {
  size = u16 q.size;
  desc_addr = q.desc;
  avail_addr = q.avail;
  used_addr = q.used;
  last_avail_idx = 0;
}

unfoldable pub read_u16 : Memory → ℕ → Outcome ℕ
read_u16 m addr = do v ← slice m addr 2; done (u16_at m v.start)

unfoldable pub read_avail_idx : Memory → VirtQueue → Outcome ℕ
unfolding read_u16
read_avail_idx m vq = read_u16 m (u64 (vq.avail_addr + 2))

unfoldable pub read_used_idx : Memory → VirtQueue → Outcome ℕ
unfolding read_u16
read_used_idx m vq = read_u16 m (u64 (vq.used_addr + 2))

-- The fields of a descriptor that `readChain` decodes.
pub record Descriptor : Type 0 where
  pub addr : ℕ
  pub count : ℕ
  pub flags : ℕ
  pub next : ℕ

unfoldable pub read_descriptor : Memory → VirtQueue → ℕ → Outcome Descriptor
read_descriptor m vq idx = do
  d ← slice m (u64 (vq.desc_addr + idx * 16)) 16
  done (record {
    addr = u64_at m d.start;
    count = u32_at m (d.start + 8);
    flags = u16_at m (d.start + 12);
    next = u16_at m (d.start + 14);
  })

abbrev pub max_chain_length : ℕ
max_chain_length = 1024

-- The loop of `readChain`: `rounds` are left, and `before` are the segments so far.
unfoldable pub follow : Memory → VirtQueue → ℕ → ℕ → List Segment → Outcome (List Segment)
unfolding read_descriptor
follow m vq zero idx before = failed
follow m vq (suc rounds) idx before = do
  d ← read_descriptor m vq idx
  v ← slice m d.addr d.count
  let here = before ++ record { buffer = v; writable = bit 1 d.flags } ∷ []
  let rest = follow m vq rounds d.next here
  if bit 0 d.flags then rest else done here

unfoldable pub read_chain : Memory → VirtQueue → ℕ → Outcome Chain
unfolding follow
read_chain m vq head_idx = do
  segments ← follow m vq max_chain_length head_idx []
  done (record { head_index = head_idx; segments = segments })

-- The slot of a ring that `idx` falls on; `%` panics on a queue of size 0.
unfoldable pub ring_slot : VirtQueue → ℕ → Outcome ℕ
ring_slot vq idx = if vq.size == 0 then crashed else done (idx % vq.size)

-- What `Pop` returns: nothing new, or a request.
unfoldable pub next_request : Memory → VirtQueue → Outcome (Option Chain)
next_request m vq = do
  avail_idx ← read_avail_idx m vq
  if avail_idx == vq.last_avail_idx then done none else do
    slot ← ring_slot vq vq.last_avail_idx
    entry ← slice m (u64 (vq.avail_addr + 4 + slot * 2)) 2
    c ← read_chain m vq (u16_at m entry.start)
    done (some c)

-- `vq.lastAvailIdx++` once a request was read.
abbrev pub advance : Outcome (Option Chain) → VirtQueue → VirtQueue
advance (done (some c)) vq = record vq { last_avail_idx = u16 (vq.last_avail_idx + 1) }
advance (done none) vq = vq
advance failed vq = vq
advance crashed vq = vq

unfoldable pub pop : Memory → VirtQueue → Outcome (Option Chain) × VirtQueue
pop m vq = (next_request m vq, advance (next_request m vq) vq)

-- `Push`: the memory afterwards. The second slice of the index is the first one again, so no write
-- is followed by an error.
unfoldable pub push : Memory → VirtQueue → ℕ → ℕ → Outcome Memory
unfolding read_used_idx ring_slot
push m vq head_index written_len = do
  used_idx ← read_used_idx m vq
  slot ← ring_slot vq used_idx
  entry ← slice m (u64 (vq.used_addr + 4 + slot * 8)) 8
  let filled = put_u32_at (put_u32_at m entry.start head_index) (entry.start + 4) written_len
  idx ← slice filled (u64 (vq.used_addr + 2)) 2
  done (put_u16_at filled idx.start (u16 (used_idx + 1)))
