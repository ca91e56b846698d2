-- ===== src/Hypervisor/Blk/Examples.antt =====
-- A disk of a few bytes, and a request that reads four of them.
use infrastructure.Prelude.{
  ℕ, zero, suc, ◌≤◌, ◌≡◌, refl, true, false, List, [], ◌∷◌, arith, take, drop, length,
}
use infrastructure.Hypervisor.Memory.{Memory}
use infrastructure.Hypervisor.VirtQueue.{Segment}
use infrastructure.Hypervisor.Blk.{BlockBackend, handle_request}
use infrastructure.Hypervisor.Blk.Requests.{
  handle_request-readonly, total_count, behind_header, handle_request-written,
}

abbrev disk : BlockBackend (List ℕ)
disk = record {
  read_at = λ n offset σ. (take n (drop offset σ), true);
  write_at = λ bs offset σ. ((length bs, true), bs);
  sync = λ σ. (true, σ);
}

abbrev guest_memory : Memory
guest_memory = record { size = 64; byte = λ a. 0 }

abbrev segment : ℕ → ℕ → Segment
segment start count = record { buffer = record { start = start; count = count }; writable = true }

abbrev request : List Segment
request = segment 0 16 ∷ segment 16 4 ∷ segment 20 1 ∷ []

handle_request-readonly_example :
    (handle_request disk true guest_memory (7 ∷ 8 ∷ []) request).1 ≡ (7 ∷ 8 ∷ [])
handle_request-readonly_example =
    handle_request-readonly disk (λ τ. refl) guest_memory (7 ∷ 8 ∷ []) request

length-take : (n : ℕ) (xs : List ℕ) → length (take n xs) ≤ n
length-take zero xs = omega arith
length-take (suc n) [] = omega arith
length-take (suc n) (x ∷ xs) = omega (arith, length-take n xs)

handle_request-written_example :
    (handle_request disk false guest_memory (7 ∷ 8 ∷ []) request).2
    ≤ total_count (behind_header request)
handle_request-written_example =
    handle_request-written disk false (λ n offset τ. length-take n (drop offset τ)) guest_memory
      (7 ∷ 8 ∷ []) request
