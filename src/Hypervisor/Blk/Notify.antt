-- ===== src/Hypervisor/Blk/Notify.antt =====
-- internal/hypervisor/virtio/blk.go: the device, and `HandleNotify`, which drains the request queue.
use infrastructure.Prelude.{
  ℕ, ◌+◌, Bool, true, false, Option, none, some, List, [], ◌∷◌, ◌/◌, ◌%◌, not, ◌&&◌, ◌==◌,
  if◌then◌else◌,
}
use infrastructure.Hypervisor.Memory.{Memory}
use infrastructure.Hypervisor.Transport.{
  Transport, queue, new_transport, raise_used_buffer_interrupt,
}
use infrastructure.Hypervisor.VirtQueue.{Chain, VirtQueue, new_virt_queue}
use infrastructure.Hypervisor.Drain.{Reply, Drained, drain}
use infrastructure.Hypervisor.Blk.{BlockBackend, handle_request}

pub record Blk : Type 0 where
  pub transport : Transport
  pub requests : Option VirtQueue
  pub queue_addr : ℕ
  pub interrupts : ℕ

-- binary.LittleEndian.PutUint64 of the capacity in sectors.
abbrev pub capacity_config : ℕ → List ℕ
capacity_config capacity =
    let n = capacity / 512 in
    n % 0x100
    ∷ n / 0x100 % 0x100
    ∷ n / 0x10000 % 0x100
    ∷ n / 0x1000000 % 0x100
    ∷ n / 0x100000000 % 0x100
    ∷ n / 0x10000000000 % 0x100
    ∷ n / 0x1000000000000 % 0x100
    ∷ n / 0x100000000000000 % 0x100
    ∷ []

unfoldable pub new_blk : ℕ → Blk
unfolding new_transport
new_blk capacity = record {
  transport = new_transport 2 0 1 256 (capacity_config capacity);
  requests = none;
  queue_addr = 0;
  interrupts = 0;
}

unfoldable pub ensure_queue : Blk → Blk
unfolding queue new_virt_queue
ensure_queue b =
    let q = queue b.transport 0 in
    if q.ready && not (q.avail == b.queue_addr)
    then record b { requests = some (new_virt_queue q); queue_addr = q.avail }
    else b

module _ {S : Type 0} (backend : BlockBackend S) (readonly : Bool) where
  -- The guest is told once a request was pushed.
  abbrev pub serve_request : Memory → S → Chain → Reply S
  serve_request m σ chain =
      let (m', σ', written) = handle_request backend readonly m σ chain.segments in
      record { memory = m'; state = σ'; written = written; told = false }

  abbrev pub after_requests : Blk → Drained S → Blk
  after_requests b d =
      let b' : Blk = record b { requests = some d.vq } in
      if d.told
      then record b' {
        transport = raise_used_buffer_interrupt b.transport;
        interrupts = b.interrupts + 1;
      }
      else b'

  abbrev pub drain_requests : ℕ → Memory → S → Blk → Option VirtQueue → Blk × Option (Drained S)
  drain_requests fuel m σ b none = (b, none)
  drain_requests fuel m σ b (some vq) =
      let d = drain serve_request true fuel m σ vq false in (after_requests b d, some d)

  -- `HandleNotify`; nothing is drained for another queue, or where there is no queue yet.
  unfoldable pub handle_requests : ℕ → ℕ → Memory → S → Blk → Blk × Option (Drained S)
  unfolding ensure_queue
  handle_requests queue_idx fuel m σ b =
      let b' : Blk = ensure_queue b in
      if queue_idx == 0 then drain_requests fuel m σ b' b'.requests else (b, none)
