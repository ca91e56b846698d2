-- ===== src/Hypervisor/Transport/Reset.antt =====
-- Writing 0 to the status register brings back the power-on state.
use infrastructure.Prelude.{
  ℕ, ◌≡◌, refl, ◌∙◌, inl, inr, List, [], ◌∷◌, Option-cases, Bool-cases, leb, ◌==◌,
}
use infrastructure.Hypervisor.Word.{le_u32}
use infrastructure.Hypervisor.Transport.{
  Queue, Transport, reset, new_transport, selected_queue, Register, decode, with_selected,
  write_register, write, device_features_sel, driver_features_sel, driver_features, queue_sel,
  interrupt_ack, status, other,
}
use infrastructure.Hypervisor.Transport.Queues.{write_all}

reset-with_selected :
    (t : Transport) (change : Queue → Queue) → reset (with_selected t change) ≡ reset t
unfolding with_selected reset
reset-with_selected t change = elim (Option-cases (selected_queue t)) [
  | inl e ↦ rw (e, with_selected)
  | inr (q, e) ↦ rw (e, with_selected)
]

reset-write_register :
    (r : Register) (t : Transport) (v : ℕ) → reset (write_register r t v) ≡ reset t
unfolding write_register reset
reset-write_register device_features_sel t v = refl
reset-write_register driver_features_sel t v = refl
reset-write_register driver_features t v = refl
reset-write_register queue_sel t v = refl
reset-write_register interrupt_ack t v = refl
reset-write_register other t v = refl
reset-write_register status t v = elim (Bool-cases (v == 0)) [ inl e ↦ rw e | inr e ↦ rw e ]
reset-write_register _ t v = reset-with_selected t _

reset-write :
    (t : Transport) (offset : ℕ) (buffer : List ℕ) → reset (write t offset buffer) ≡ reset t
unfolding write
reset-write t offset (a ∷ b ∷ c ∷ d ∷ []) = elim (Bool-cases (leb 0x100 offset)) [
  | inl e ↦ rw e
  | inr e ↦ rw e (reset-write_register (decode offset) t (le_u32 a b c d))
]
reset-write t offset buffer = refl

reset-write_all : (ws : List (ℕ × List ℕ)) (t : Transport) → reset (write_all t ws) ≡ reset t
unfolding write_all
reset-write_all [] t = refl
reset-write_all ((offset, buffer) ∷ ws) t =
    reset-write_all ws (write t offset buffer) ∙ reset-write t offset buffer

-- After any writes of a guest, a write of 0 to the status register gives the transport that
-- `NewTransport` made.
pub write-zero_status :
    (device_id features n max : ℕ) (config : List ℕ) (ws : List (ℕ × List ℕ))
    → write
        (write_all (new_transport device_id features n max config) ws)
        0x070
        (0 ∷ 0 ∷ 0 ∷ 0 ∷ [])
      ≡ new_transport device_id features n max config
unfolding write write_register decode le_u32 new_transport
write-zero_status device_id features n max config ws =
    reset-write_all ws (new_transport device_id features n max config)
