-- ===== src/Hypervisor/Net/Receive.antt =====
-- How a frame is laid out across the buffers of a chain.
use infrastructure.Prelude.{
  ℕ, zero, suc, ◌+◌, ◌≤◌, ◌≡◌, refl, sym, ap, ◌∙◌, subst, inl, inr, true, false, not, ◌||◌, List,
  [], ◌∷◌, ◌++◌, ◌==◌, leb, length, take, drop, replicate, All, arith, Bool-cases, length-take_le,
  length-take_ge, length-drop, take-append, take-within, take-drop,
}
use infrastructure.Hypervisor.Memory.{Memory}
use infrastructure.Hypervisor.VirtQueue.{Segment, total_writable_len}
use infrastructure.Hypervisor.Blk.{bytes_of, put_bytes}
use infrastructure.Hypervisor.Net.{Across, write_segments_across, write_across, net_hdr_size}
use infrastructure.Hypervisor.Net.Buffers.{
  AllApart, AreApart, placed, across_bytes, take-bytes_of, length-bytes_of,
}

-- All of some bytes stands in the buffers, in their order.
abbrev pub IsPlaced : List ℕ → ℕ → List Segment → Across → Type 0
IsPlaced rem w ss r =
    (take (length rem) (placed r.memory ss) ≡ rem)
    × (r.remaining ≡ [])
    × (r.written ≡ w + length rem)

nil_lem : (xs : List ℕ) → length xs ≡ 0 → xs ≡ []
nil_lem [] h = refl
nil_lem (x ∷ xs) h = absurd (omega arith)

take_all : (n : ℕ) (xs : List ℕ) → length xs ≤ n → take n xs ≡ xs
take_all zero [] h = refl
take_all zero (x ∷ xs) h = absurd (omega arith)
take_all (suc n) [] h = refl
take_all (suc n) (x ∷ xs) h = ap (λ l. x ∷ l) (take_all n xs (omega arith))

-- Nothing remains to be written.
across_nil :
    (m : Memory) (w : ℕ) (ss : List Segment)
    → (write_segments_across m [] w ss).remaining ≡ []
      × (write_segments_across m [] w ss).written ≡ w
unfolding write_segments_across
across_nil m w [] = (refl, refl)
across_nil m w (s ∷ ss) = elim (Bool-cases (not s.writable || true)) [
  | inl e ↦ rw e (across_nil m w ss)
  | inr e ↦ absurd (ground (arith, e))
]

nil-IsPlaced :
    (m : Memory) (rem : List ℕ) (w : ℕ)
    → length rem ≤ total_writable_len []
    → IsPlaced rem w [] (write_segments_across m rem w [])
unfolding write_segments_across placed total_writable_len
nil-IsPlaced m rem w h =
    let empty : rem ≡ [] = nil_lem rem (omega arith) in rw empty (refl, refl, omega arith)

-- A segment is passed over, or filled.
across_skips :
    (m : Memory) (rem : List ℕ) (w : ℕ) (s : Segment) (ss : List Segment)
    → (not s.writable || length rem == 0) ≡ true
    → write_segments_across m rem w (s ∷ ss) ≡ write_segments_across m rem w ss
unfolding write_segments_across
across_skips m rem w s ss e = rw e refl

module _ (m : Memory) (rem : List ℕ) (w : ℕ) (s : Segment) (ss : List Segment) where
  abbrev part : List ℕ
  part = take (s.buffer).count rem

  abbrev next_rem : List ℕ
  next_rem = drop (length part) rem

  abbrev next : Across
  next = write_segments_across (put_bytes m (s.buffer).start part) next_rem (w + length part) ss

  across_fills :
      (not s.writable || length rem == 0) ≡ false → write_segments_across m rem w (s ∷ ss) ≡ next
  unfolding write_segments_across
  across_fills e = rw e refl

  placed_on :
      (r : Memory)
      → s.writable ≡ true
      → placed r (s ∷ ss) ≡ bytes_of r (s.buffer).start (s.buffer).count ++ placed r ss
  unfolding placed
  placed_on r on = rw on refl

  placed_off : (r : Memory) → s.writable ≡ false → placed r (s ∷ ss) ≡ placed r ss
  unfolding placed
  placed_off r off = rw off refl

  total_off : s.writable ≡ false → total_writable_len (s ∷ ss) ≡ total_writable_len ss
  unfolding total_writable_len
  total_off off = rw off (omega arith)

  -- The last bytes fit into one buffer.
  last-IsPlaced :
      s.writable ≡ true
      → All (AreApart s) ss
      → length rem ≤ (s.buffer).count
      → IsPlaced rem w (s ∷ ss) next
  last-IsPlaced on apart fits =
      let size : length part ≡ length rem = length-take_le (s.buffer).count rem fits in
      let whole : part ≡ rem = take_all (s.buffer).count rem fits in
      let none_left : next_rem ≡ [] =
        nil_lem next_rem (omega (arith, size, length-drop (length part) rem)) in
      let bytes =
        across_bytes (put_bytes m (s.buffer).start part) next_rem (w + length part) s ss apart in
      let within =
        take-within (length rem) (bytes_of next.memory (s.buffer).start (s.buffer).count)
          (placed next.memory ss)
          (omega (arith, fits, length-bytes_of next.memory (s.buffer).start (s.buffer).count)) in
      let put =
        take-bytes_of m (s.buffer).start part (s.buffer).count (omega (arith, size, fits)) in
      let (left, count) = across_nil (put_bytes m (s.buffer).start part) (w + length part) ss in
      (
        ap (take (length rem)) (placed_on next.memory on)
            ∙ within
            ∙ ap (take (length rem)) bytes
            ∙ ap
                (λ k.
                  take k (
                    bytes_of (put_bytes m (s.buffer).start part) (s.buffer).start (s.buffer).count))
                (sym size)
            ∙ put
            ∙ whole,
        rw none_left left,
        rw none_left (omega (arith, count, size)),
      )

  -- A buffer is filled, and more bytes go on.
  more-IsPlaced :
      s.writable ≡ true
      → All (AreApart s) ss
      → (s.buffer).count ≤ length rem
      → IsPlaced next_rem (w + length part) ss next
      → IsPlaced rem w (s ∷ ss) next
  more-IsPlaced on apart more (taken, left, count) =
      let size : length part ≡ (s.buffer).count = length-take_ge (s.buffer).count rem more in
      let bytes =
        across_bytes (put_bytes m (s.buffer).start part) next_rem (w + length part) s ss apart in
      let put = take-bytes_of m (s.buffer).start part (s.buffer).count (omega (arith, size)) in
      let full : bytes_of next.memory (s.buffer).start (s.buffer).count ≡ part =
        sym (
          take_all (length part) (bytes_of next.memory (s.buffer).start (s.buffer).count)
            (omega (arith, size, length-bytes_of next.memory (s.buffer).start (s.buffer).count)))
        ∙ ap (take (length part)) bytes
        ∙ put in
      let rest_size = length-drop (length part) rem in
      (
        ap (take (length rem))
              (placed_on next.memory on ∙ ap (λ b. b ++ placed next.memory ss) full)
            ∙ take-append (length part) part (placed next.memory ss) next_rem refl (length rem)
                (omega (arith, size, more, rest_size)) taken
            ∙ (ap (λ k. take (s.buffer).count rem ++ drop k rem) size
                ∙ take-drop (s.buffer).count rem),
        left,
        omega (arith, count, size, more, rest_size),
      )

  total_on :
      s.writable ≡ true → total_writable_len (s ∷ ss) ≡ (s.buffer).count + total_writable_len ss
  unfolding total_writable_len
  total_on on = rw on refl

write_segments_across-IsPlaced :
    (m : Memory) (rem : List ℕ) (w : ℕ) (ss : List Segment)
    → AllApart ss
    → length rem ≤ total_writable_len ss
    → IsPlaced rem w ss (write_segments_across m rem w ss)
write_segments_across-IsPlaced m rem w [] apart h = nil-IsPlaced m rem w h
write_segments_across-IsPlaced m rem w (s ∷ ss) apart h = elim (Bool-cases s.writable) [
  | inl on ↦ elim (Bool-cases (length rem == 0)) [
    | inl nothing ↦
        let empty : rem ≡ [] = nil_lem rem (ground (arith, nothing)) in
        let skip = across_skips m [] w s ss (ground (arith, on)) in
        let (a, b) = across_nil m w ss in
        subst (λ rem. IsPlaced rem w (s ∷ ss) (write_segments_across m rem w (s ∷ ss))) (sym empty)
          (refl, ap (λ r. r.remaining) skip ∙ a, ap (λ r. r.written) skip ∙ b ∙ omega arith)
    | inr something ↦
        let fill = across_fills m rem w s ss (ground (arith, on, something)) in
        elim (Bool-cases (leb (length rem) (s.buffer).count)) [
          | inl fits ↦
              subst (IsPlaced rem w (s ∷ ss)) (sym fill)
                (last-IsPlaced m rem w s ss on apart.0 (ground (arith, fits)))
          | inr more ↦
              let full = length-take_ge (s.buffer).count rem (ground (arith, more)) in
              let rest =
                write_segments_across-IsPlaced (put_bytes m (s.buffer).start (part m rem w s ss))
                  (next_rem m rem w s ss) (w + length (part m rem w s ss)) ss apart.1
                  (ground (
                    arith,
                    full,
                    more,
                    h,
                    total_on m rem w s ss on,
                    length-drop (length (part m rem w s ss)) rem,
                  )) in
              subst (IsPlaced rem w (s ∷ ss)) (sym fill)
                (more-IsPlaced m rem w s ss on apart.0 (ground (arith, more)) rest)
        ]
  ]
  | inr off ↦
      let skip = across_skips m rem w s ss (ground (arith, off)) in
      let (taken, left, count) =
        write_segments_across-IsPlaced m rem w ss apart.1
          (omega (arith, h, total_off m rem w s ss off)) in
      subst (IsPlaced rem w (s ∷ ss)) (sym skip) (
        ap (take (length rem))
              (placed_off m rem w s ss (write_segments_across m rem w ss).memory off)
            ∙ taken,
        left,
        count,
      )
]

-- A frame that fits is written behind an empty header, across the writable buffers of the chain in
-- their order and to the last byte, when the buffers do not meet.
pub write_across-IsPlaced :
    (m : Memory) (segments : List Segment) (frame : List ℕ)
    → AllApart segments
    → net_hdr_size + length frame ≤ total_writable_len segments
    → IsPlaced (replicate net_hdr_size 0 ++ frame) 0 segments (write_across m segments frame)
unfolding write_across
write_across-IsPlaced m segments frame apart fits =
    write_segments_across-IsPlaced m (replicate net_hdr_size 0 ++ frame) 0 segments apart
      (omega (arith, fits))
