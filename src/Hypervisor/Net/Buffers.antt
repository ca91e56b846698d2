-- ===== src/Hypervisor/Net/Buffers.antt =====
-- Bytes that are put into buffers which do not meet.
use infrastructure.Prelude.{
  ℕ, zero, suc, ◌+◌, ◌≤◌, ◌<◌, ◌≡◌, refl, ap, ◌∙◌, ◌⊎◌, inl, inr, not, ◌||◌, List, [], ◌∷◌, ◌++◌,
  ◌==◌, if◌then◌else◌, length, take, drop, All, arith, Bool-cases, length-take_below,
}
use infrastructure.Hypervisor.Memory.{Memory, put_byte}
use infrastructure.Hypervisor.VirtQueue.{Segment}
use infrastructure.Hypervisor.Blk.{bytes_of, put_bytes}
use infrastructure.Hypervisor.Net.{write_segments_across}

pub length-bytes_of : (m : Memory) (a n : ℕ) → length (bytes_of m a n) ≡ n
unfolding bytes_of
length-bytes_of m a zero = refl
length-bytes_of m a (suc n) = ap suc (length-bytes_of m (a + 1) n)

bytes_of-same :
    (m n : Memory) (a count : ℕ)
    → ((x : ℕ) → a ≤ x → x < a + count → m.byte x ≡ n.byte x)
    → bytes_of m a count ≡ bytes_of n a count
unfolding bytes_of
bytes_of-same m n a zero h = refl
bytes_of-same m n a (suc count) h =
    let first : m.byte a ≡ n.byte a = h a (omega arith) (omega arith) in
    rw (first, bytes_of-same m n (a + 1) count (λ x l r. h x (omega arith) (omega arith))) refl

byte-put_bytes :
    (m : Memory) (a : ℕ) (bs : List ℕ) (x : ℕ)
    → (x < a) ⊎ (a + length bs ≤ x)
    → (put_bytes m a bs).byte x ≡ m.byte x
unfolding put_bytes put_byte
byte-put_bytes m a [] x h = refl
byte-put_bytes m a (b ∷ bs) x h =
    byte-put_bytes (put_byte m a b) (a + 1) bs x (ground (arith, h)) ∙ ground (arith, h)

self : (m : Memory) (a b : ℕ) → (put_byte m a b).byte a ≡ b
unfolding put_byte
self m a b = ground arith

pub take-bytes_of :
    (m : Memory) (a : ℕ) (bs : List ℕ) (count : ℕ)
    → length bs ≤ count
    → take (length bs) (bytes_of (put_bytes m a bs) a count) ≡ bs
unfolding put_bytes bytes_of
take-bytes_of m a [] count h = refl
take-bytes_of m a (b ∷ bs) zero h = absurd (omega arith)
take-bytes_of m a (b ∷ bs) (suc count) h =
    let here : (put_bytes (put_byte m a b) (a + 1) bs).byte a ≡ b =
      byte-put_bytes (put_byte m a b) (a + 1) bs a (inl (omega arith)) ∙ self m a b in
    rw (here, take-bytes_of (put_byte m a b) (a + 1) bs count (omega arith)) refl

-- The buffers of two segments do not meet.
abbrev pub AreApart : Segment → Segment → Type 0
AreApart s t =
    ((s.buffer).start + (s.buffer).count ≤ (t.buffer).start)
    ⊎ ((t.buffer).start + (t.buffer).count ≤ (s.buffer).start)

abbrev pub AllApart : List Segment → Type 0
AllApart [] = Unit
AllApart (s ∷ ss) = All (AreApart s) ss × AllApart ss

-- What the writable buffers of a chain hold, in their order.
unfoldable pub placed : Memory → List Segment → List ℕ
unfolding bytes_of
placed m [] = []
placed m (s ∷ ss) =
    (if s.writable then bytes_of m (s.buffer).start (s.buffer).count else []) ++ placed m ss

abbrev Outside : ℕ → Segment → Type 0
Outside x s = (x < (s.buffer).start) ⊎ ((s.buffer).start + (s.buffer).count ≤ x)

-- Bytes outside the buffers stay.
byte-write_segments_across :
    (m : Memory) (rem : List ℕ) (w : ℕ) (ss : List Segment) (x : ℕ)
    → All (Outside x) ss
    → (write_segments_across m rem w ss).memory.byte x ≡ m.byte x
unfolding write_segments_across
byte-write_segments_across m rem w [] x h = refl
byte-write_segments_across m rem w (s ∷ ss) x h =
    let bs = take (s.buffer).count rem in
    elim (Bool-cases (not s.writable || length rem == 0)) [
      | inl e ↦ rw e (byte-write_segments_across m rem w ss x h.1)
      | inr e ↦ rw e (
          byte-write_segments_across (put_bytes m (s.buffer).start bs) (drop (length bs) rem)
            (w + length bs) ss x h.1
          ∙ byte-put_bytes m (s.buffer).start bs x
              (ground (arith, h.0, length-take_below (s.buffer).count rem)))
    ]

-- A buffer that no later segment meets holds what was put into it.
pub across_bytes :
    (m : Memory) (rem : List ℕ) (w : ℕ) (s : Segment) (ss : List Segment)
    → All (AreApart s) ss
    → bytes_of (write_segments_across m rem w ss).memory (s.buffer).start (s.buffer).count
      ≡ bytes_of m (s.buffer).start (s.buffer).count
across_bytes m rem w s ss h =
    bytes_of-same _ m (s.buffer).start (s.buffer).count
      (λ x l r. byte-write_segments_across m rem w ss x (outside ss h x l r))
  where
    outside :
        (ts : List Segment)
        → All (AreApart s) ts
        → (x : ℕ) → (s.buffer).start ≤ x
        → x < (s.buffer).start + (s.buffer).count
        → All (Outside x) ts
    outside [] h x l r = tt
    outside (t ∷ ts) h x l r = (ground (arith, h.0), outside ts h.1 x l r)
