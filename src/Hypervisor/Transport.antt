-- ===== src/Hypervisor/Transport.antt =====
-- internal/hypervisor/virtio/transport.go: the virtio-mmio register window of one device.
-- Data of an access is a list of bytes, as the guest's access width gives it. The mutex makes each
-- access one step. The offsets are decoded first, and each register has a clause of its own.
pub mod Queues
pub mod Registers
pub mod Reset
pub mod Config
use Prim.Native.Nat.{bit_and}
use infrastructure.Prelude.{
  ℕ, zero, suc, ◌+◌, ◌-◌, ◌*◌, ◌/◌, ◌%◌, ◌≤◌, Bool, true, false, not, ◌&&◌, ◌||◌, List, [], ◌∷◌,
  ◌++◌, Option, none, some, ◌==◌, ltb, leb, if◌then◌else◌, length, get_elem?, set, replicate, drop,
}
use infrastructure.Hypervisor.Word.{bit, u8, u32, put_low, put_high, le_u32, put_u32}

pub record Queue : Type 0 where
  pub size : ℕ
  pub ready : Bool
  pub desc : ℕ
  pub avail : ℕ
  pub used : ℕ

abbrev pub no_queue : Queue
no_queue = record { size = 0; ready = false; desc = 0; avail = 0; used = 0 }

pub record Transport : Type 0 where
  pub device_id : ℕ
  pub device_features : ℕ
  pub num_queues : ℕ
  pub queue_max_size : ℕ
  pub config : List ℕ
  pub status : ℕ
  pub device_features_sel : ℕ
  pub driver_features_sel : ℕ
  pub driver_features : ℕ
  pub queue_sel : ℕ
  pub queues : List Queue
  pub interrupt_status : ℕ

-- `resetLocked`
unfoldable pub reset : Transport → Transport
reset t = record t {
  status = 0;
  device_features_sel = 0;
  driver_features_sel = 0;
  driver_features = 0;
  queue_sel = 0;
  queues = replicate t.num_queues no_queue;
  interrupt_status = 0;
}

-- features | 1 << 32
abbrev pub with_version_one : ℕ → ℕ
with_version_one features = if bit 32 features then features else features + 0x100000000

unfoldable pub new_transport : ℕ → ℕ → ℕ → ℕ → List ℕ → Transport
unfolding reset
new_transport device_id features num_queues queue_max_size config = reset (record {
  device_id = device_id;
  device_features = with_version_one features;
  num_queues = num_queues;
  queue_max_size = queue_max_size;
  config = config;
  status = 0;
  device_features_sel = 0;
  driver_features_sel = 0;
  driver_features = 0;
  queue_sel = 0;
  queues = [];
  interrupt_status = 0;
})

unfoldable pub selected_queue : Transport → Option Queue
selected_queue t = get_elem? t.queues t.queue_sel

unfoldable pub features_page : ℕ → ℕ → ℕ
features_page features sel =
    if sel == 0 then u32 features else if sel == 1 then u32 (features / 0x100000000) else 0

-- `copy(data, src)` onto zeros: `n` bytes of `src`, and zeros past its end.
unfoldable pub copy_padded : ℕ → List ℕ → List ℕ
copy_padded zero src = []
copy_padded (suc n) [] = 0 ∷ copy_padded n []
copy_padded (suc n) (b ∷ src) = b ∷ copy_padded n src

unfoldable pub read_config : List ℕ → ℕ → List ℕ → List ℕ
unfolding copy_padded
read_config src offset buffer =
    if leb (length src) offset
    then replicate (length buffer) 0
    else copy_padded (length buffer) (drop offset src)

-- The value of a transport register; the registers that only a write names read as 0.
unfoldable pub register_value : Transport → ℕ → ℕ
unfolding selected_queue features_page
register_value t offset =
    if offset == 0x000
    then 0x74726976
    else if offset == 0x004
    then 2
    else if offset == 0x008
    then t.device_id
    else if offset == 0x00c
    then 0
    else if offset == 0x010
    then features_page t.device_features t.device_features_sel
    else if offset == 0x034
    then t.queue_max_size
    else if offset == 0x044
    then elim (selected_queue t) [ none ↦ 0 | some q ↦ if q.ready then 1 else 0 ]
    else if offset == 0x060
    then t.interrupt_status
    else if offset == 0x070
    then t.status
    else 0

-- `Read`: what `data` holds afterwards.
unfoldable pub read : Transport → ℕ → List ℕ → List ℕ
unfolding read_config register_value
read t offset buffer =
    if leb 0x100 offset
    then read_config t.config (offset - 0x100) buffer
    else if not (length buffer == 4)
    then buffer
    else put_u32 (register_value t offset)

-- The registers that `Write` knows.
pub data Register : Type 0 where
  device_features_sel driver_features_sel driver_features queue_sel queue_num queue_ready : Register
  interrupt_ack status queue_desc_low queue_desc_high queue_driver_low queue_driver_high : Register
  queue_device_low queue_device_high other : Register

-- The cases of the `switch` of `Write`.
unfoldable pub decode : ℕ → Register
decode offset =
    if offset == 0x014
    then device_features_sel
    else if offset == 0x024
    then driver_features_sel
    else if offset == 0x020
    then driver_features
    else if offset == 0x030
    then queue_sel
    else if offset == 0x038
    then queue_num
    else if offset == 0x044
    then queue_ready
    else if offset == 0x064
    then interrupt_ack
    else if offset == 0x070
    then status
    else if offset == 0x080
    then queue_desc_low
    else if offset == 0x084
    then queue_desc_high
    else if offset == 0x090
    then queue_driver_low
    else if offset == 0x094
    then queue_driver_high
    else if offset == 0x0a0
    then queue_device_low
    else if offset == 0x0a4
    then queue_device_high
    else other

-- `if q := t.selectedQueue(); q != nil { … }`, with what is done to the queue.
unfoldable pub with_selected : Transport → (Queue → Queue) → Transport
unfolding selected_queue
with_selected t change = elim (selected_queue t) [
  | none ↦ t
  | some q ↦ record t { queues = set t.queues t.queue_sel (change q) }
]

unfoldable pub write_register : Register → Transport → ℕ → Transport
unfolding with_selected reset
write_register device_features_sel t v = record t { device_features_sel = v }
write_register driver_features_sel t v = record t { driver_features_sel = v }
write_register driver_features t v = record t {
  driver_features =
      if t.driver_features_sel == 0
      then put_low t.driver_features v
      else put_high t.driver_features v;
}
write_register queue_sel t v = record t { queue_sel = v }
write_register queue_num t v =
    with_selected t λ q. if ltb 0 v && leb v t.queue_max_size then record q { size = v } else q
write_register queue_ready t v = with_selected t λ q. record q { ready = bit 0 v }
write_register interrupt_ack t v = record t {
  interrupt_status = t.interrupt_status - bit_and t.interrupt_status v;
}
write_register status t v = if v == 0 then reset t else record t { status = u8 v }
write_register queue_desc_low t v = with_selected t λ q. record q { desc = put_low q.desc v }
write_register queue_desc_high t v = with_selected t λ q. record q { desc = put_high q.desc v }
write_register queue_driver_low t v = with_selected t λ q. record q { avail = put_low q.avail v }
write_register queue_driver_high t v = with_selected t λ q. record q { avail = put_high q.avail v }
write_register queue_device_low t v = with_selected t λ q. record q { used = put_low q.used v }
write_register queue_device_high t v = with_selected t λ q. record q { used = put_high q.used v }
write_register other t v = t

-- `Write`: an access of another width than four bytes, and one to the config space, is ignored.
unfoldable pub write : Transport → ℕ → List ℕ → Transport
unfolding decode write_register
write t offset (a ∷ b ∷ c ∷ d ∷ []) =
    if leb 0x100 offset then t else write_register (decode offset) t (le_u32 a b c d)
write t offset buffer = t

unfoldable pub is_driver_ok : Transport → Bool
is_driver_ok t = bit 2 t.status

-- `Queue`, for an index that is not negative.
unfoldable pub queue : Transport → ℕ → Queue
queue t i = elim (get_elem? t.queues i) [ none ↦ no_queue | some q ↦ q ]

-- t.interruptStatus |= UsedBufferInterrupt
unfoldable pub raise_used_buffer_interrupt : Transport → Transport
raise_used_buffer_interrupt t = record t { interrupt_status = t.interrupt_status / 2 * 2 + 1 }
