-- ===== src/Hypervisor/Net.antt =====
-- internal/hypervisor/virtio/net.go: the network device over a tap. A write to the tap is a parameter:
-- what it does to the tap and whether it succeeds.
pub mod Buffers
pub mod Receive
pub mod Transmit
mod Examples
use infrastructure.Prelude.{
  ℕ, zero, suc, ◌+◌, ◌-◌, ◌*◌, Bool, true, false, not, ◌&&◌, ◌||◌, List, [], ◌∷◌, ◌++◌, Option,
  none, some, ltb, ◌==◌, if◌then◌else◌, length, take, drop, replicate,
}
use infrastructure.Hypervisor.Memory.{Outcome, done, failed, crashed, Memory}
use infrastructure.Hypervisor.Transport.{Transport, Queue, queue, raise_used_buffer_interrupt}
use infrastructure.Hypervisor.VirtQueue.{Segment, Chain, VirtQueue, new_virt_queue, pop, push}
use infrastructure.Hypervisor.Blk.{bytes_of, put_bytes}
use infrastructure.Hypervisor.Drain.{Reply, Drained, drain}

abbrev pub queue_rx : ℕ
queue_rx = 0

abbrev pub queue_tx : ℕ
queue_tx = 1

abbrev pub net_hdr_size : ℕ
net_hdr_size = 10

-- The device, with the queues that it has built and the addresses that they were built from.
pub record Net : Type 0 where
  pub transport : Transport
  pub rx_queue : Option VirtQueue
  pub tx_queue : Option VirtQueue
  pub rx_queue_addr : ℕ
  pub tx_queue_addr : ℕ
  pub interrupts : ℕ

-- Whether a queue has to be built, anew or at all.
abbrev pub is_stale : Queue → ℕ → Bool
is_stale q addr = q.ready && not (q.avail == addr)

unfoldable pub ensure_rx : Net → Net
unfolding queue new_virt_queue
ensure_rx n =
    let q = queue n.transport queue_rx in
    if is_stale q n.rx_queue_addr
    then record n { rx_queue = some (new_virt_queue q); rx_queue_addr = q.avail }
    else n

unfoldable pub ensure_tx : Net → Net
unfolding queue new_virt_queue
ensure_tx n =
    let q = queue n.transport queue_tx in
    if is_stale q n.tx_queue_addr
    then record n { tx_queue = some (new_virt_queue q); tx_queue_addr = q.avail }
    else n

unfoldable pub ensure_queues : Net → Net
unfolding ensure_rx ensure_tx
ensure_queues n = ensure_tx (ensure_rx n)

-- RaiseUsedBufferInterrupt, and the call of `onInterrupt`.
unfoldable pub interrupt : Net → Net
interrupt n = record n {
  transport = raise_used_buffer_interrupt n.transport;
  interrupts = n.interrupts + 1;
}

unfoldable pub total_len : List Segment → ℕ
total_len [] = 0
total_len (s ∷ ss) = (s.buffer).count + total_len ss

-- The bytes of a chain, one segment after the other.
unfoldable pub gather : Memory → List Segment → List ℕ
unfolding bytes_of
gather m [] = []
gather m (s ∷ ss) = bytes_of m (s.buffer).start (s.buffer).count ++ gather m ss

-- A written frame, which the tap takes or not.
abbrev pub Tap : Type 0 → Type 0
Tap S = List ℕ → S → Bool × S

module _ {S : Type 0} (tap : Tap S) where
  -- `transmit`, which leaves the memory as it is; no error is to be told.
  unfoldable pub transmit : Memory → S → Chain → Reply S
  unfolding total_len gather
  transmit m σ chain =
      if ltb (total_len chain.segments) net_hdr_size
      then record { memory = m; state = σ; written = 0; told = false }
      else (let (good, σ') = tap (drop net_hdr_size (gather m chain.segments)) σ in
          record { memory = m; state = σ'; written = 0; told = good })

  abbrev pub after_drain : Net → Drained S → Net
  after_drain n d =
      let n' : Net = record n { tx_queue = some d.vq } in if d.told then interrupt n' else n'

  abbrev pub drain_tx : ℕ → Memory → S → Net → Option VirtQueue → Net × Option (Drained S)
  drain_tx fuel m σ n none = (n, none)
  drain_tx fuel m σ n (some vq) =
      let d = drain transmit false fuel m σ vq false in (after_drain n d, some d)

  -- `HandleNotify`; nothing is drained for another queue, or where there is no queue yet.
  unfoldable pub handle_notify : ℕ → ℕ → Memory → S → Net → Net × Option (Drained S)
  unfolding ensure_queues interrupt transmit
  handle_notify queue_idx fuel m σ n =
      let n' : Net = ensure_queues n in
      if queue_idx == queue_tx then drain_tx fuel m σ n' n'.tx_queue else (n, none)

-- The loop of `writeAcross`, over what remains.
pub record Across : Type 0 where
  pub memory : Memory
  pub remaining : List ℕ
  pub written : ℕ

unfoldable pub write_segments_across : Memory → List ℕ → ℕ → List Segment → Across
unfolding put_bytes
write_segments_across m remaining written [] = record {
  memory = m;
  remaining = remaining;
  written = written;
}
write_segments_across m remaining written (s ∷ ss) =
    let n = length (take (s.buffer).count remaining) in
    let skipped = write_segments_across m remaining written ss in
    let filled =
      write_segments_across (put_bytes m (s.buffer).start (take (s.buffer).count remaining))
        (drop n remaining) (written + n) ss in
    if not s.writable || length remaining == 0 then skipped else filled

-- `writeAcross` of the empty header and a frame.
unfoldable pub write_across : Memory → List Segment → List ℕ → Across
unfolding write_segments_across
write_across m segments frame =
    write_segments_across m (replicate net_hdr_size 0 ++ frame) 0 segments

abbrev pub after_push : Net → Memory → Outcome Memory → Outcome (Net × Memory)
after_push n m (done m') = done (interrupt n, m')
after_push n m failed = done (n, m)
after_push n m crashed = crashed

-- The delivery of a frame into a chain that was popped: without room the chain is not given back.
abbrev pub deliver_into : Net → VirtQueue → Chain → Across → Outcome (Net × Memory)
deliver_into n vq chain a =
    if length a.remaining == 0
    then after_push n a.memory (push a.memory vq chain.head_index a.written)
    else done (n, a.memory)

abbrev pub deliver_popped :
    Net → Memory → List ℕ → VirtQueue → Outcome (Option Chain) → Outcome (Net × Memory)
deliver_popped n m frame vq crashed = crashed
deliver_popped n m frame vq failed = done (n, m)
deliver_popped n m frame vq (done none) = done (n, m)
deliver_popped n m frame vq (done (some chain)) =
    deliver_into (record n { rx_queue = some vq }) vq chain (write_across m chain.segments frame)

abbrev pub deliver_rx : Net → Memory → List ℕ → Option VirtQueue → Outcome (Net × Memory)
deliver_rx n m frame none = done (n, m)
deliver_rx n m frame (some vq) = deliver_popped n m frame (pop m vq).1 (pop m vq).0

-- `deliver`
unfoldable pub deliver : Net → Memory → List ℕ → Outcome (Net × Memory)
unfolding ensure_queues pop push write_across interrupt
deliver n m frame = let n' : Net = ensure_queues n in deliver_rx n' m frame n'.rx_queue
