-- ===== src/Hypervisor/Boot/Gdt.antt =====
-- internal/hypervisor/boot/gdt.go: the flat code and data segments.
use infrastructure.Prelude.{ℕ, ◌+◌, ◌*◌}
use infrastructure.Hypervisor.Word.{u8}
use infrastructure.Hypervisor.Memory.{Memory, put_byte, put_u16_at}
use infrastructure.Hypervisor.Boot.Buffer.{make}

-- `encodeDescriptor` of the slice at `at`. The bits that are combined are disjoint.
unfoldable pub encode_descriptor : Memory → ℕ → ℕ → ℕ → Memory
unfolding put_byte put_u16_at
encode_descriptor b at seg_type flags =
    put_byte (put_byte (put_u16_at b at 0xffff) (at + 5) (0x90 + seg_type)) (at + 6)
      (u8 (flags * 16) + 0xf)

unfoldable pub build_gdt : Memory
unfolding encode_descriptor
build_gdt = encode_descriptor (encode_descriptor (make 24) 8 0xa 10) 16 0x2 12
