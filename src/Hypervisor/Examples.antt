-- ===== src/Hypervisor/Examples.antt =====
-- A guest with 64 bytes of memory, a device of two queues, and a queue of two entries in that memory.
use infrastructure.Prelude.{
  ℕ, ◌+◌, ◌*◌, ◌<◌, ◌≤◌, ◌≡◌, ◌≢◌, ◌↔◌, ◌⊎◌, inl, refl, ap, true, false, List, [], ◌∷◌, none, some,
  arith, All, ◌==◌, ltb, if◌then◌else◌,
}
use infrastructure.Hypervisor.Word.{u16}
use infrastructure.Hypervisor.Transport.{Queue, Transport, new_transport, queue}
use infrastructure.Hypervisor.Transport.Queues.{
  write_all as write_registers, IsWithin, write_all-new_transport, word,
}
use infrastructure.Hypervisor.Memory.{Memory, done, failed, crashed, slice, u16_at, u32_at}
use infrastructure.Hypervisor.VirtQueue.{
  VirtQueue, Segment, Chain, new_virt_queue, read_avail_idx, read_chain, pop, push,
  max_chain_length,
}
use infrastructure.Hypervisor.VirtQueue.Chains.{IsLinked, read_chain_iff}
use infrastructure.Hypervisor.VirtQueue.Rings.{used_entry, push_lem, pending, IsNext, pop-pending}
use infrastructure.Hypervisor.VirtQueue.Unsized.{unsized, unsized-queue, pop-unsized}
use infrastructure.Hypervisor.VirtQueue.Wrapped.{pop-wrapped}
use infrastructure.Hypervisor.Mmio.{MmioDevice}

-- Interrupts on, "A", then the divisor latch.
abbrev greeting : List (ℕ × ℕ)
greeting = (1, 2) ∷ (0, 65) ∷ (3, 0x80) ∷ (0, 12) ∷ []

abbrev setup : List (ℕ × List ℕ)
setup = (0x030, word 1) ∷ (0x038, word 8) ∷ (0x044, word 1) ∷ []

write_all-new_transport_example :
    IsWithin 2 256 (write_registers (new_transport 1 0 2 256 (1 ∷ 2 ∷ [])) setup)
write_all-new_transport_example = write_all-new_transport 1 0 2 256 (1 ∷ 2 ∷ []) setup

abbrev device : Transport
device = new_transport 1 0 2 256 (1 ∷ 2 ∷ [])

small :
    (a b c d e f : ℕ)
    → a + b + c + d + e + f < 0x100000000
    → All (λ v. v < 0x100000000) (a ∷ b ∷ c ∷ d ∷ e ∷ f ∷ [])
small a b c d e f h =
    (omega arith, (omega arith, (omega arith, (omega arith, (omega arith, (omega arith, tt))))))

abbrev empty_memory : Memory
empty_memory = record { size = 64; byte = λ a. 0 }

abbrev two_entries : VirtQueue
two_entries = record {
  size = 2;
  desc_addr = 0;
  avail_addr = 32;
  used_addr = 40;
  last_avail_idx = 0;
}

-- The one segment of a chain whose descriptor is all zeros.
abbrev no_bytes : Segment
no_bytes = record { buffer = record { start = 0; count = 0 }; writable = false }

read_chain_iff_example :
    (read_chain empty_memory two_entries 0
      ≡ done (record { head_index = 0; segments = no_bytes ∷ [] }))
    ↔ (IsLinked empty_memory two_entries 0 (no_bytes ∷ []) × (1 ≤ max_chain_length))
read_chain_iff_example = read_chain_iff empty_memory two_entries 0 (no_bytes ∷ [])

push_example :
    (n : Memory) × (push empty_memory two_entries 1 9 ≡ done n)
    × (n.size ≡ 64)
    × (u16_at n (40 + 2) ≡ u16 (0 + 1))
    × (u32_at n (used_entry empty_memory two_entries) ≡ 1)
    × (u32_at n (used_entry empty_memory two_entries + 4) ≡ 9)
    × (n.byte 0 ≡ 0)
push_example =
    push_lem empty_memory two_entries 1 9
      (record {
        some_entries = omega arith;
        fits = omega arith;
        no_wrap = omega arith;
        bytes = λ x. omega arith;
      })
      (omega arith) (omega arith) 0 (inl (omega arith)) (inl (omega arith))

-- The driver has announced one request.
abbrev announced : Memory
announced = record { size = 64; byte = λ a. if a == 34 then 1 else 0 }

pop-pending_example :
    (((pop announced two_entries).0 ≡ done none)
      × (pending 1 two_entries ≡ 0)
      × ((pop announced two_entries).1 ≡ two_entries))
    ⊎ ((c : Chain) × ((pop announced two_entries).0 ≡ done (some c))
        × IsNext announced two_entries c
        × (pending 1 (pop announced two_entries).1 + 1 ≡ pending 1 two_entries))
    ⊎ ((((pop announced two_entries).0 ≡ failed) ⊎ ((pop announced two_entries).0 ≡ crashed))
        × (pending 1 two_entries ≢ 0)
        × ((pop announced two_entries).1 ≡ two_entries))
unfolding read_avail_idx slice
pop-pending_example = pop-pending announced two_entries 1 refl (omega arith) (omega arith)

abbrev hasty : Queue
hasty = queue (unsized 1 0 2 256 [] 0 0 0 32 0 40 0) 0

at_one : read_avail_idx announced (new_virt_queue hasty) ≡ done 1
unfolding read_avail_idx slice new_virt_queue
at_one = ground (
  arith,
  ap (λ q. q.avail)
      (unsized-queue 1 0 2 256 [] 0 0 0 32 0 40 0 (omega arith) (omega arith)
        (small 0 0 32 0 40 0 (omega arith))),
)

pop-unsized_example :
    ((queue (unsized 1 0 2 256 [] 0 0 0 32 0 40 0) 0).ready ≡ true)
    × ((pop announced (new_virt_queue (queue (unsized 1 0 2 256 [] 0 0 0 32 0 40 0) 0))).0
        ≡ crashed)
unfolding read_avail_idx slice new_virt_queue
pop-unsized_example =
    pop-unsized 1 0 2 256 [] 0 0 0 32 0 40 0 (omega arith) (omega arith)
      (small 0 0 32 0 40 0 (omega arith)) announced 1 at_one (omega arith)

abbrev registered : MmioDevice
registered = record {
  base = 0xd0000000 + 0 * 0x200;
  size = 0x200;
  transport = device;
  gsi = 16 + 0;
  has_on_notify = true;
}

-- One request, whose descriptor starts 16 bytes before the end of the addresses and is 32 bytes long.
abbrev wrapping : Memory
wrapping = record {
  size = 64;
  byte = λ a.
      if a == 0
      then 0xf0
      else if ltb a 8
      then 0xff
      else if a == 8
      then 0x20
      else if a == 34
      then 1
      else 0;
}

wrapping_bytes : (x : ℕ) → wrapping.byte x < 0x100
wrapping_bytes x = ground arith

pop-wrapped_example : (pop wrapping two_entries).0 ≡ crashed
unfolding read_avail_idx slice
pop-wrapped_example =
    pop-wrapped wrapping two_entries 1 refl (omega arith)
      (record {
        some_entries = omega arith;
        avail_fits = omega arith;
        descriptor_fits = omega arith;
        no_wrap = omega arith;
        bytes = wrapping_bytes;
      })
      (omega arith, omega arith)
