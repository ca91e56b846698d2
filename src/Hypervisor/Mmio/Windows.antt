-- ===== src/Hypervisor/Mmio/Windows.antt =====
-- The windows of the registered devices do not overlap, and each access reaches its own.
use infrastructure.Prelude.{
  ℕ, zero, suc, ◌+◌, ◌-◌, ◌*◌, ◌≤◌, ◌<◌, ◌≡◌, refl, ap, subst, inl, inr, Bool, true, false, ◌||◌,
  List, [], ◌∷◌, ◌++◌, none, some, arith, Bool-cases, ltb, leb, length, length-append, get_elem?,
  set,
}
use mathlib.Core.Option.{some-injective}
use infrastructure.Hypervisor.Transport.{Transport}
use infrastructure.Hypervisor.Memory.{Outcome, done, failed, crashed, ◌>>=◌}
use infrastructure.Hypervisor.Mmio.{
  MmioDevice, mmio_base_addr, mmio_device_size, max_devices, new_device, register_mmio_device,
  access, queue_notify_data, serve_mmio,
}

-- The devices from the `i`th on have the windows and the interrupt lines of their positions.
abbrev pub AreLaidOut : ℕ → List MmioDevice → Type 0
AreLaidOut i [] = Unit
AreLaidOut i (d ∷ ds) =
    ((d.base ≡ mmio_base_addr + i * mmio_device_size)
      × (d.size ≡ mmio_device_size)
      × (d.gsi ≡ 16 + i))
    × AreLaidOut (suc i) ds

-- A device for each registration, in order, as long as the table has room.
unfoldable pub register_all : List MmioDevice → List (Transport × Bool) → List MmioDevice
register_all devices [] = devices
register_all devices ((t, b) ∷ more) = elim (register_mmio_device devices t b) [
  | none ↦ register_all devices more
  | some devices' ↦ register_all devices' more
]

append-AreLaidOut :
    (i : ℕ) (ds : List MmioDevice) (t : Transport) (b : Bool)
    → AreLaidOut i ds
    → AreLaidOut i (ds ++ new_device (i + length ds) t b ∷ [])
unfolding new_device
append-AreLaidOut i [] t b l = ((omega arith, omega arith, omega arith), tt)
append-AreLaidOut i (d ∷ ds) t b l =
    let j : i + suc (length ds) ≡ suc i + length ds = omega arith in
    (l.0, rw j (append-AreLaidOut (suc i) ds t b (l.1)))

first-AreLaidOut :
    (ds : List MmioDevice) (t : Transport) (b : Bool)
    → AreLaidOut 0 ds
    → AreLaidOut 0 (ds ++ new_device (length ds) t b ∷ [])
first-AreLaidOut ds t b l =
    let z : 0 + length ds ≡ length ds = omega arith in
    subst (λ n. AreLaidOut 0 (ds ++ new_device n t b ∷ [])) z (append-AreLaidOut 0 ds t b l)

leb-false : (a b : ℕ) → leb a b ≡ false → b < a
leb-false a b h = ground arith

register_full :
    (ds : List MmioDevice) (t : Transport) (b : Bool)
    → leb max_devices (length ds) ≡ true
    → register_mmio_device ds t b ≡ none
unfolding register_mmio_device
register_full ds t b e = rw e refl

register_room :
    (ds : List MmioDevice) (t : Transport) (b : Bool)
    → leb max_devices (length ds) ≡ false
    → register_mmio_device ds t b ≡ some (ds ++ new_device (length ds) t b ∷ [])
unfolding register_mmio_device
register_room ds t b e = rw e refl

register_all-AreLaidOut :
    (rs : List (Transport × Bool)) (ds : List MmioDevice)
    → AreLaidOut 0 ds
    → length ds ≤ max_devices
    → AreLaidOut 0 (register_all ds rs) × (length (register_all ds rs) ≤ max_devices)
unfolding register_all
register_all-AreLaidOut [] ds l n = (l, n)
register_all-AreLaidOut ((t, b) ∷ rs) ds l n = elim (Bool-cases (leb max_devices (length ds))) [
  | inl e ↦ rw (register_full ds t b e, register_all) (register_all-AreLaidOut rs ds l n)
  | inr e ↦
      rw (register_room ds t b e, register_all)
        (register_all-AreLaidOut rs (ds ++ new_device (length ds) t b ∷ [])
          (first-AreLaidOut ds t b l)
          (omega (
            arith,
            length-append ds (new_device (length ds) t b ∷ []),
            leb-false max_devices (length ds) e,
          )))
]

base_at :
    (i k : ℕ) (ds : List MmioDevice) (d : MmioDevice)
    → AreLaidOut i ds
    → get_elem? ds k ≡ some d
    → (d.base ≡ mmio_base_addr + (i + k) * mmio_device_size) × (d.size ≡ mmio_device_size)
base_at i k [] d l e = absurd (ground (arith, e))
base_at i zero (c ∷ ds) d l e =
    let same : c ≡ d = some-injective _ _ e in
    (omega (arith, l.0.0, ap (λ x. x.base) same), omega (arith, l.0.1, ap (λ x. x.size) same))
base_at i (suc k) (c ∷ ds) d l e =
    let (b, z) = base_at (suc i) k ds d (l.1) e in (omega (arith, b), z)

bind_assoc {ℓ} :
    {A B C : Type ℓ} (m : Outcome A) (f : A → Outcome B) (g : B → Outcome C)
    → ((m >>= f) >>= g) ≡ (m >>= λ x. f x >>= g)
bind_assoc crashed f g = refl
bind_assoc failed f g = refl
bind_assoc (done a) f g = refl

queue_notify_data_short : (buffer : List ℕ) → length buffer < 4 → queue_notify_data buffer ≡ crashed
unfolding queue_notify_data
queue_notify_data_short [] h = refl
queue_notify_data_short (a ∷ []) h = refl
queue_notify_data_short (a ∷ b ∷ []) h = refl
queue_notify_data_short (a ∷ b ∷ c ∷ []) h = refl
queue_notify_data_short (a ∷ b ∷ c ∷ d ∷ rest) h = absurd (omega arith)

serve_reaches :
    (i k : ℕ) (ds : List MmioDevice) (d : MmioDevice) (off : ℕ) (buffer : List ℕ) (is_write : Bool)
    → AreLaidOut i ds
    → get_elem? ds k ≡ some d
    → off < mmio_device_size
    → serve_mmio ds (d.base + off) buffer is_write
      ≡ (access d off buffer is_write >>= λ r. done (r.0, set ds k r.1))
unfolding serve_mmio
serve_reaches i k [] d off buffer is_write l e h = absurd (ground (arith, e))
serve_reaches i zero (c ∷ ds) d off buffer is_write l e h =
    let same : c ≡ d = some-injective _ _ e in
    let within : (ltb (d.base + off) c.base || leb (c.base + c.size) (d.base + off)) ≡ false =
      ground (arith, l.0.1, same) in
    let offset : d.base + off - c.base ≡ off = omega (arith, ap (λ x. x.base) same) in
    rw (within, offset, same) refl
serve_reaches i (suc k) (c ∷ ds) d off buffer is_write l e h =
    let at = base_at (suc i) k ds d (l.1) e in
    let beyond : (ltb (d.base + off) c.base || leb (c.base + c.size) (d.base + off)) ≡ true =
      ground (arith, at, l.0) in
    rw (beyond, serve_reaches (suc i) k ds d off buffer is_write (l.1) e h)
      (bind_assoc (access d off buffer is_write) _ _)

pub register_all-serve_mmio :
    (rs : List (Transport × Bool)) (k : ℕ) (d : MmioDevice) (off : ℕ) (buffer : List ℕ)
    (is_write : Bool)
    → get_elem? (register_all [] rs) k ≡ some d
    → off < mmio_device_size
    → (length (register_all [] rs) ≤ max_devices)
      × (serve_mmio (register_all [] rs) (d.base + off) buffer is_write
          ≡ (access d off buffer is_write >>= λ r. done (r.0, set (register_all [] rs) k r.1)))
register_all-serve_mmio rs k d off buffer is_write e h =
    let (laid, n) = register_all-AreLaidOut rs [] tt (omega arith) in
    (n, serve_reaches 0 k (register_all [] rs) d off buffer is_write laid e h)

-- A guest that writes fewer than four bytes to the notify register of a device with a handler ends
-- the hypervisor.
pub short_notify :
    (rs : List (Transport × Bool)) (k : ℕ) (d : MmioDevice) (buffer : List ℕ)
    → get_elem? (register_all [] rs) k ≡ some d
    → d.has_on_notify ≡ true
    → length buffer < 4
    → serve_mmio (register_all [] rs) (d.base + 0x050) buffer true ≡ crashed
unfolding access
short_notify rs k d buffer e n h =
    let (_, reached) = register_all-serve_mmio rs k d 0x050 buffer true e (omega arith) in
    let short = queue_notify_data_short buffer h in rw (reached, n, short)
