-- ===== src/Hypervisor/Boot/Load/Pages.antt =====
-- What writes into the guest's memory leave, and the page tables in any order of writing.
use mathlib.Core.List.Permᴰ.{Permᴰ, nil, cons, swap, trans}
use infrastructure.Prelude.{
  ℕ, zero, suc, ◌+◌, ◌-◌, ◌*◌, ◌/◌, ◌%◌, ◌≤◌, ◌<◌, ◌≡◌, refl, sym, ap, ◌∙◌, subst, ◌⊎◌, inl, inr,
  true, false, ◌&&◌, List, [], ◌∷◌, ltb, leb, ◌==◌, if◌then◌else◌, Result, ok, err, ok-injective,
  err-ok, ◌>>=◌, All, Any, arith, Bool-cases,
}
use infrastructure.Hypervisor.Word.{u64}
use infrastructure.Hypervisor.Memory.{Memory}
use infrastructure.Hypervisor.Boot.{pml4_addr, pdpt_addr, pd_addr}
use infrastructure.Hypervisor.Boot.Buffer.{copy}
use infrastructure.Hypervisor.Boot.Paging.{page_size, pml4, pdpt, pd, directories}
use infrastructure.Hypervisor.Boot.Paging.Walk.{Holds, IsMapped, pml4-size, pdpt-size, pd-size}
use infrastructure.Hypervisor.Boot.Load.{write, write_pages}

pub Result->>=_ok {ℓ κ} :
    {A : Type ℓ} {B : Type κ} (r : Result A) (rest : A → Result B) {b : B}
    → (r >>= rest) ≡ ok b
    → (a : A) × (r ≡ ok a) × (rest a ≡ ok b)
Result->>=_ok (err e) rest h = absurd (err-ok h)
Result->>=_ok (ok a) rest h = (a, refl, h)

-- Where two ranges do not meet.
abbrev pub Apart : ℕ → ℕ → ℕ → ℕ → Type 0
Apart a size b count = (a + size ≤ b) ⊎ (b + count ≤ a)

pub copy-Holds : (m : Memory) (a : ℕ) (b : Memory) → Holds (copy m a b) a b
unfolding copy
copy-Holds m a b k h =
    let inside : leb a (a + k) && ltb (a + k) (a + b.size) ≡ true = ground arith in
    let offset : a + k - a ≡ k = omega arith in rw (inside, offset) refl

pub copy_stays :
    (m : Memory) (a : ℕ) (b : Memory) (c : ℕ) (d : Memory)
    → Apart a b.size c d.size
    → Holds m c d
    → Holds (copy m a b) c d
unfolding copy
copy_stays m a b c d apart held k h =
    let outside : leb a (c + k) && ltb (c + k) (a + b.size) ≡ false = ground (arith, apart) in
    rw outside (held k h)

-- What a write that succeeds has done: the range lies within the memory.
pub write_ok :
    (m : Memory) (a : ℕ) (b : Memory) (next : Memory)
    → write m a b ≡ ok next
    → (next ≡ copy m a b) × (u64 (a + b.size) ≤ m.size)
unfolding write
write_ok m a b next h = elim (Bool-cases (ltb m.size (u64 (a + b.size)))) [
  | inl over ↦ absurd (err-ok (rw over at h))
  | inr fits ↦ (sym (ok-injective (rw fits at h)), ground (arith, fits))
]

module _ {A : Type 0} (P : A → Type 0) where
  All-Perm : {xs ys : List A} → Permᴰ xs ys → All P xs → All P ys
  All-Perm nil all = tt
  All-Perm (cons e p) all = (subst P e all.0, All-Perm p all.1)
  All-Perm (swap e f) all = (subst P f all.1.0, (subst P e all.0, all.1.1))
  All-Perm (trans p q) all = All-Perm q (All-Perm p all)

  Any-Perm : {xs ys : List A} → Permᴰ xs ys → Any P xs → Any P ys
  Any-Perm nil any = any
  Any-Perm (cons e p) (inl a) = inl (subst P e a)
  Any-Perm (cons e p) (inr a) = inr (Any-Perm p a)
  Any-Perm (swap e f) (inl a) = inr (inl (subst P e a))
  Any-Perm (swap e f) (inr (inl a)) = inl (subst P f a)
  Any-Perm (swap e f) (inr (inr a)) = inr (inr a)
  Any-Perm (trans p q) any = Any-Perm q (Any-Perm p any)

-- The page that belongs at an address.
unfoldable content : ℕ → ℕ → Memory
content n a =
    if a == pml4_addr
    then pml4
    else if a == pdpt_addr
    then pdpt n
    else pd ((a - pd_addr) / page_size)

content-size : (n a : ℕ) → (content n a).size ≡ page_size
unfolding content
content-size n a = elim (Bool-cases (a == pml4_addr)) [
  | inl e ↦ rw e pml4-size
  | inr e ↦ elim (Bool-cases (a == pdpt_addr)) [
    | inl f ↦ rw (e, f) (pdpt-size n)
    | inr f ↦ rw (e, f) (pd-size ((a - pd_addr) / page_size))
  ]
]

content-pd : (n i : ℕ) → content n (pd_addr + i * page_size) ≡ pd i
unfolding content
content-pd n i =
    let not_top : pd_addr + i * page_size == pml4_addr ≡ false = ground arith in
    let not_second : pd_addr + i * page_size == pdpt_addr ≡ false = ground arith in
    let index : (pd_addr + i * page_size - pd_addr) / page_size ≡ i = omega arith in
    rw (not_top, not_second, index) refl

-- A page of the tables, with its address.
record IsPage (n : ℕ) (p : ℕ × Memory) : Type 0 where
  aligned : p.0 % page_size ≡ 0
  filled : p.1 ≡ content n p.0

directories-IsPage : (n count i : ℕ) → All (IsPage n) (directories count i)
unfolding directories
directories-IsPage n zero i = tt
directories-IsPage n (suc count) i = (
  record { aligned = omega arith; filled = sym (content-pd n i) },
  directories-IsPage n count (i + 1),
)

directories-Any :
    (count i j : ℕ)
    → i ≤ j
    → j < i + count
    → Any (λ p. p.0 ≡ pd_addr + j * page_size) (directories count i)
unfolding directories
directories-Any zero i j h lt = absurd (omega arith)
directories-Any (suc count) i j h lt = elim (Bool-cases (i == j)) [
  | inl e ↦ inl (ground (arith, e))
  | inr e ↦ inr (directories-Any count (i + 1) j (ground (arith, e)) (omega arith))
]

-- A page that the memory holds is still held after another page is written.
page_step :
    (n a : ℕ) (m : Memory) (p : ℕ × Memory)
    → a % page_size ≡ 0
    → IsPage n p
    → Holds m a (content n a)
    → Holds (copy m p.0 p.1) a (content n a)
page_step n a m p al page held = elim (Bool-cases (p.0 == a)) [
  | inl e ↦
      let here : p.0 ≡ a = ground (arith, e) in
      rw (page.filled, here) (copy-Holds m a (content n a))
  | inr e ↦
      let page_length : p.1.size ≡ page_size = rw page.filled (content-size n p.0) in
      let apart : Apart p.0 p.1.size a (content n a).size =
        ground (arith, e, al, page.aligned, page_length, content-size n a) in
      copy_stays m p.0 p.1 a (content n a) apart held
]

-- Once a page is held, it stays while pages are written; and a page that is written is held.
pages_keep :
    (n a : ℕ) (ps : List (ℕ × Memory)) (m next : Memory)
    → a % page_size ≡ 0
    → All (IsPage n) ps
    → write_pages m ps ≡ ok next
    → Holds m a (content n a)
    → Holds next a (content n a)
unfolding write_pages
pages_keep n a [] m next al pages h held =
    subst (λ m. Holds m a (content n a)) (ok-injective h) held
pages_keep n a (p ∷ ps) m next al pages h held =
    let (mid, w, rest) = Result->>=_ok (write m p.0 p.1) (λ m. write_pages m ps) h in
    let (wrote, fits) = write_ok m p.0 p.1 mid w in
    pages_keep n a ps mid next al pages.1 rest
      (subst (λ m. Holds m a (content n a)) (sym wrote) (page_step n a m p al pages.0 held))

pages_hold :
    (n a : ℕ) (ps : List (ℕ × Memory)) (m next : Memory)
    → a % page_size ≡ 0
    → All (IsPage n) ps
    → Any (λ p. p.0 ≡ a) ps
    → write_pages m ps ≡ ok next
    → Holds next a (content n a)
unfolding write_pages
pages_hold n a [] m next al pages any h = absurd any
pages_hold n a (p ∷ ps) m next al pages (inl e) h =
    let (mid, w, rest) = Result->>=_ok (write m p.0 p.1) (λ m. write_pages m ps) h in
    let (wrote, fits) = write_ok m p.0 p.1 mid w in
    let now : Holds (copy m p.0 p.1) a (content n a) =
      rw (pages.0.filled, e) (copy-Holds m a (content n a)) in
    pages_keep n a ps mid next al pages.1 rest
      (subst (λ m. Holds m a (content n a)) (sym wrote) now)
pages_hold n a (p ∷ ps) m next al pages (inr any) h =
    let (mid, w, rest) = Result->>=_ok (write m p.0 p.1) (λ m. write_pages m ps) h in
    pages_hold n a ps mid next al pages.1 any rest

-- The pages of the tables, as they are built.
abbrev pub tables : ℕ → List (ℕ × Memory)
tables n = (pml4_addr, pml4) ∷ (pdpt_addr, pdpt n) ∷ directories n 0

tables-IsPage : (n : ℕ) → All (IsPage n) (tables n)
unfolding content
tables-IsPage n = (
  record { aligned = refl; filled = refl },
  (record { aligned = refl; filled = refl }, directories-IsPage n n 0),
)

-- Written in any order, the tables are in the memory.
pub write_pages-IsMapped :
    (n : ℕ) (ps : List (ℕ × Memory)) (m next : Memory)
    → Permᴰ (tables n) ps
    → write_pages m ps ≡ ok next
    → IsMapped next n
unfolding content
write_pages-IsMapped n ps m next order h =
    let pages = All-Perm (IsPage n) order (tables-IsPage n) in
    record {
      at_pml4 = pages_hold n pml4_addr ps m next refl pages (Any-Perm _ order (inl refl)) h;
      at_pdpt = pages_hold n pdpt_addr ps m next refl pages (Any-Perm _ order (inr (inl refl))) h;
      at_pd = λ i lt.
          let there =
            Any-Perm (λ p. p.0 ≡ pd_addr + i * page_size) order
              (inr (inr (directories-Any n 0 i (omega arith) (omega arith)))) in
          subst (λ b. Holds next (pd_addr + i * page_size) b) (content-pd n i)
            (pages_hold n (pd_addr + i * page_size) ps m next (omega arith) pages there h);
    }

pub write_pages-size :
    (ps : List (ℕ × Memory)) (m next : Memory) → write_pages m ps ≡ ok next → next.size ≡ m.size
unfolding write_pages copy
write_pages-size [] m next h = sym (ap (λ m. m.size) (ok-injective h))
write_pages-size (p ∷ ps) m next h =
    let (mid, w, rest) = Result->>=_ok (write m p.0 p.1) (λ m. write_pages m ps) h in
    let (wrote, fits) = write_ok m p.0 p.1 mid w in
    write_pages-size ps mid next rest ∙ ap (λ m. m.size) wrote
