-- ===== src/Hypervisor/Net/Examples.antt =====
-- A driver that has announced one frame, and a frame that arrives for two buffers.
use infrastructure.Prelude.{
  ℕ, ◌+◌, ◌≤◌, inl, true, List, [], ◌∷◌, ◌++◌, none, ◌==◌, if◌then◌else◌, length, replicate, arith,
}
use infrastructure.Hypervisor.Memory.{Memory}
use infrastructure.Hypervisor.Transport.{no_queue, new_transport}
use infrastructure.Hypervisor.VirtQueue.{VirtQueue, Segment, total_writable_len}
use infrastructure.Hypervisor.Drain.Ends.{Ends}
use infrastructure.Hypervisor.Net.{Net, Tap, net_hdr_size, write_across}
use infrastructure.Hypervisor.Net.Receive.{IsPlaced, write_across-IsPlaced}

-- One descriptor of 16 bytes at 200, and one entry in the available ring at 64.
abbrev guest : Memory
guest = record {
  size = 256;
  byte = λ a. if a == 0 then 200 else if a == 8 then 16 else if a == 66 then 1 else 0;
}

abbrev device : Net
device = record {
  transport = record (new_transport 1 0 2 256 []) {
    queues = no_queue ∷ record { size = 2; ready = true; desc = 0; avail = 64; used = 128 } ∷ [];
  };
  rx_queue = none;
  tx_queue = none;
  rx_queue_addr = 0;
  tx_queue_addr = 0;
  interrupts = 0;
}

abbrev sending : VirtQueue
sending = record { size = 2; desc_addr = 0; avail_addr = 64; used_addr = 128; last_avail_idx = 0 }

-- The frames that were sent.
abbrev wire : Tap (List (List ℕ))
wire frame sent = (true, frame ∷ sent)

abbrev two_buffers : List Segment
two_buffers =
    record { buffer = record { start = 100; count = 8 }; writable = true }
    ∷ record { buffer = record { start = 120; count = 64 }; writable = true }
    ∷ []

abbrev frame : List ℕ
frame = 7 ∷ 8 ∷ 9 ∷ []

room : net_hdr_size + length frame ≤ total_writable_len two_buffers
unfolding total_writable_len
room = omega arith

write_across_example :
    IsPlaced
      (replicate net_hdr_size 0 ++ frame)
      0
      two_buffers
      (write_across guest two_buffers frame)
write_across_example =
    write_across-IsPlaced guest two_buffers frame ((inl (omega arith), tt), (tt, tt)) room
