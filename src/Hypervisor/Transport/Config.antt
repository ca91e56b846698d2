-- ===== src/Hypervisor/Transport/Config.antt =====
-- What a guest reads from a device's config space.
use infrastructure.Prelude.{
  ℕ, zero, suc, ◌+◌, ◌-◌, ◌≤◌, ◌<◌, ◌≡◌, refl, sym, ap, ◌∙◌, inl, inr, true, List, [], ◌∷◌, none,
  some, arith, length, get_elem?, replicate, drop, length-replicate, Bool-cases, leb, leb→le,
}
use infrastructure.Hypervisor.Transport.{Transport, copy_padded, read_config, read}

-- The byte of the config space at an offset, 0 past its end.
pub config_byte : List ℕ → ℕ → ℕ
config_byte src i = elim (get_elem? src i) [ none ↦ 0 | some b ↦ b ]

get_elem?-copy_padded :
    (n i : ℕ) (src : List ℕ) → i < n → get_elem? (copy_padded n src) i ≡ some (config_byte src i)
unfolding copy_padded config_byte
get_elem?-copy_padded zero i src h = elim h [ ]
get_elem?-copy_padded (suc n) zero [] h = refl
get_elem?-copy_padded (suc n) zero (b ∷ src) h = refl
get_elem?-copy_padded (suc n) (suc i) [] h = get_elem?-copy_padded n i [] (omega arith)
get_elem?-copy_padded (suc n) (suc i) (b ∷ src) h = get_elem?-copy_padded n i src (omega arith)

length-copy_padded : (n : ℕ) (src : List ℕ) → length (copy_padded n src) ≡ n
unfolding copy_padded
length-copy_padded zero src = refl
length-copy_padded (suc n) [] = ap suc (length-copy_padded n [])
length-copy_padded (suc n) (b ∷ src) = ap suc (length-copy_padded n src)

config_byte-drop : (k i : ℕ) (src : List ℕ) → config_byte (drop k src) i ≡ config_byte src (k + i)
unfolding config_byte
config_byte-drop zero i src = let e : zero + i ≡ i = omega arith in rw e
config_byte-drop (suc k) i [] = refl
config_byte-drop (suc k) i (b ∷ src) =
    let e : suc k + i ≡ suc (k + i) = omega arith in rw e (config_byte-drop k i src)

config_byte_past : (src : List ℕ) (i : ℕ) → length src ≤ i → config_byte src i ≡ 0
unfolding config_byte
config_byte_past [] i h = refl
config_byte_past (b ∷ src) zero h = absurd (omega arith)
config_byte_past (b ∷ src) (suc i) h = config_byte_past src i (omega arith)

get_elem?-replicate : (n i v : ℕ) → i < n → get_elem? (replicate n v) i ≡ some v
get_elem?-replicate zero i v h = elim h [ ]
get_elem?-replicate (suc n) zero v h = refl
get_elem?-replicate (suc n) (suc i) v h = get_elem?-replicate n i v (omega arith)

-- A read of the config space, of any width and at any offset from 0x100 on, fills the whole buffer
-- with the bytes of the device's config from there, and with zeros past its end.
pub read_config_lem :
    (t : Transport) (offset : ℕ) (buffer : List ℕ)
    → 0x100 ≤ offset
    → (i : ℕ) → i < length buffer
    → (length (read t offset buffer) ≡ length buffer)
      × (get_elem? (read t offset buffer) i ≡ some (config_byte t.config (offset - 0x100 + i)))
unfolding read read_config
read_config_lem t offset buffer h i k =
    let past : leb 0x100 offset ≡ true = ground arith in
    elim (Bool-cases (leb (length t.config) (offset - 0x100))) [
      | inl e ↦
          rw (past, e)
            (
              length-replicate (length buffer) 0,
              get_elem?-replicate (length buffer) i 0 k
                  ∙ ap some (
                      sym (
                        config_byte_past t.config (offset - 0x100 + i)
                          (omega (arith, leb→le (length t.config) (offset - 0x100) e)))),
            )
      | inr e ↦
          rw (past, e)
            (
              length-copy_padded (length buffer) (drop (offset - 0x100) t.config),
              get_elem?-copy_padded (length buffer) i (drop (offset - 0x100) t.config) k
                  ∙ ap some (config_byte-drop (offset - 0x100) i t.config),
            )
    ]
