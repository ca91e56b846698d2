-- ===== src/Hypervisor/Mmio.antt =====
-- internal/hypervisor/mmio.go: the windows of the virtio-mmio devices, and which device answers a
-- guest's access. What a device does when it is notified is a call out of this file, so it is part
-- of the result. The data of an access has the guest's access width.
pub mod Windows
use infrastructure.Prelude.{
  ℕ, ◌+◌, ◌-◌, ◌*◌, Bool, true, false, ◌||◌, List, [], ◌∷◌, ◌++◌, Option, none, some, ◌==◌, ltb,
  leb, if◌then◌else◌, length,
}
use infrastructure.Hypervisor.Word.{le_u32}
use infrastructure.Hypervisor.Transport.{Transport, read, write}
use infrastructure.Hypervisor.Memory.{Outcome, done, failed, crashed, ◌>>=◌}

pub record MmioDevice : Type 0 where
  pub base : ℕ
  pub size : ℕ
  pub transport : Transport
  pub gsi : ℕ
  pub has_on_notify : Bool

abbrev pub mmio_base_addr : ℕ
mmio_base_addr = 0xd0000000

abbrev pub mmio_device_size : ℕ
mmio_device_size = 0x200

abbrev pub max_devices : ℕ
max_devices = 8

unfoldable pub new_device : ℕ → Transport → Bool → MmioDevice
new_device idx transport has_on_notify = record {
  base = mmio_base_addr + idx * mmio_device_size;
  size = mmio_device_size;
  transport = transport;
  gsi = 16 + idx;
  has_on_notify = has_on_notify;
}

-- `registerMMIODevice`, whose base address and GSI are those of the last device; `none` is its error.
unfoldable pub register_mmio_device : List MmioDevice → Transport → Bool → Option (List MmioDevice)
unfolding new_device
register_mmio_device devices transport has_on_notify =
    if leb max_devices (length devices)
    then none
    else some (devices ++ new_device (length devices) transport has_on_notify ∷ [])

-- What an access comes to: it is outside every window, or a device answers it.
pub data Served : Type 0 where
  outside : Served
  read_back : List ℕ → Served
  notified : ℕ → ℕ → Served
  written : Served

-- `QueueNotifyData`: `Uint32` panics on fewer than four bytes.
unfoldable pub queue_notify_data : List ℕ → Outcome ℕ
queue_notify_data (a ∷ b ∷ c ∷ d ∷ rest) = done (le_u32 a b c d)
queue_notify_data _ = crashed

-- The access of the device whose window it is in.
unfoldable pub access : MmioDevice → ℕ → List ℕ → Bool → Outcome (Served × MmioDevice)
access d off buffer false = done (read_back (read d.transport off buffer), d)
access d off buffer true =
    if off == 0x050
    then (if d.has_on_notify
        then (queue_notify_data buffer >>= λ idx. done (notified d.gsi idx, d))
        else done (written, d))
    else done (written, record d { transport = write d.transport off buffer })

unfoldable pub serve_mmio : List MmioDevice → ℕ → List ℕ → Bool → Outcome (Served × List MmioDevice)
serve_mmio [] addr buffer is_write = done (outside, [])
serve_mmio (d ∷ ds) addr buffer is_write =
    let rest = serve_mmio ds addr buffer is_write in
    if ltb addr d.base || leb (d.base + d.size) addr
    then (rest >>= λ r. done (r.0, d ∷ r.1))
    else (access d (addr - d.base) buffer is_write >>= λ r. done (r.0, r.1 ∷ ds))
