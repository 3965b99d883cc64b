-- ===== src/Heap/Session.antt =====
-- A whole session of calls on the heap of heap.c, from `heap_init` on.
use shad_os.Base.{
  ℕ, zero, suc, ◌+◌, ◌-◌, ◌≤◌, ◌<◌, ◌≡◌, refl, ◌≢◌, true, false, some, List, [], ◌∷◌, arith, word,
  Option-cases, eq_of_some, Bool-cases, ◌&&◌, leb, subst, ap, sym, ◌∙◌, inl, inr, ap₂,
}
use shad_os.Heap.{
  Heap, Mem, header_size, heap_size, alignment, null, align_up, heap_init, kmalloc, kfree,
}
use shad_os.Heap.Layout.{Block, block, after, Chain, Live, IsHeap, write_self}
use shad_os.Heap.Align.{align_up_page}
use shad_os.Heap.Blocks.{first_fit-Taken}
use shad_os.Heap.FirstFit.{carve, first_fit}
use shad_os.Heap.Release.{release, head_free, Coalesced, release-Coalesced}
use shad_os.Heap.Return.{release-first_fit}
use shad_os.Heap.Malloc.{Allocates, kmalloc-first_fit}
use shad_os.Heap.Free.{kfree-release}

abbrev pub initial : List Block
initial = block (heap_size - header_size) true ∷ []

-- Where the kernel ends above 0 and the zone fits in the address space, `heap_init` makes a well-
-- formed heap of one free block, less than a page behind the kernel's end.
pub heap_init-IsHeap :
    (kernel_end : ℕ) (h : Heap)
    → 0 < kernel_end
    → kernel_end + 4096 + heap_size < word
    → IsHeap (heap_init kernel_end h) initial
      × (kernel_end ≤ (heap_init kernel_end h).base)
      × ((heap_init kernel_end h).base < kernel_end + 4096)
unfolding heap_init
heap_init-IsHeap k h pos small =
    let at = align_up_page k (omega arith) in
    (
      record {
        at_base = refl;
        not_null = omega (arith, at);
        in_word = omega (arith, at);
        whole = refl;
        chain = (write_self h.mem _ _, omega arith);
      },
      omega (arith, at),
      omega (arith, at),
    )

-- What a call of `kmalloc` that is known to have ended did.
kmalloc-Allocates :
    (n : ℕ) {h : Heap} {bs : List Block} {r : ℕ × Heap}
    → n ≢ 0
    → IsHeap h bs
    → kmalloc n h ≡ some r
    → Allocates h (first_fit (align_up n alignment) h.base bs) r
kmalloc-Allocates n {h} {bs} pos i e =
    let (k, ends, alloc) = kmalloc-first_fit n pos i in
    subst (Allocates h (first_fit (align_up n alignment) h.base bs)) (eq_of_some (sym ends ∙ e))
      alloc

-- On a well-formed heap with no two free neighbours, `kfree` of the pointer that `kmalloc` has
-- just returned, for a size other than 0 and not `NULL`, ends and restores the blocks.
pub kfree-kmalloc :
    (n : ℕ) {h g : Heap} {bs : List Block} {p : ℕ}
    → IsHeap h bs
    → Coalesced bs
    → n ≢ 0
    → kmalloc n h ≡ some (p, g)
    → p ≢ null
    → (g' : Heap) × (kfree p g ≡ some g') × IsHeap g' bs
kfree-kmalloc n {h} {g} {bs} {p} i c pos e got =
    let alloc = kmalloc-Allocates n pos i e in
    elim (Option-cases (first_fit (align_up n alignment) h.base bs)) [
      | inl nothing ↦ absurd (got (rw nothing at alloc).0)
      | inr ((q, l), found) ↦
          let (at_q, is, same_base, _) = rw found at alloc in
          let taken = first_fit-Taken (align_up n alignment) h.base bs found in
          let live : Live g.base l p taken.size = rw (same_base, at_q) taken.live in
          let (g', ends, is', _) = kfree-release p taken.size is live in
          (
            g',
            ends,
            subst (IsHeap g')
                (rw (same_base, at_q) (release-first_fit (align_up n alignment) h.base bs found c))
                is',
          )
    ]

-- A session: calls of `kmalloc` with any size, and of `kfree` with a pointer that is live.
pub data Session (h : Heap) : Heap → Type 0 where
  begin : Session h h
  allocated :
      {g g' : Heap} (n p : ℕ) → Session h g → n < word → kmalloc n g ≡ some (p, g') → Session h g'
  released :
      {g g' : Heap} (p n : ℕ) {bs : List Block}
      → Session h g
      → IsHeap g bs
      → Live g.base bs p n
      → kfree p g ≡ some g'
      → Session h g'

abbrev pub IsTidy : Heap → Type 0
IsTidy g = (bs : List Block) × IsHeap g bs × Coalesced bs

carve-Coalesced :
    (n : ℕ) (b : Block) (bs : List Block)
    → b.free ≡ true
    → Coalesced (b ∷ bs)
    → Coalesced (carve n b bs)
unfolding carve
carve-Coalesced n b bs is_free c = ground arith

-- First fit frees no block: one that follows a free block is not free afterwards either.
head-first_fit :
    (n a : ℕ) (bs : List Block) {p : ℕ} {r : List Block}
    → first_fit n a bs ≡ some (p, r)
    → head_free bs ≡ false
    → head_free r ≡ false
unfolding first_fit carve
head-first_fit n a [] h used = cc
head-first_fit n a (b ∷ bs) h used = ground arith

first_fit-Coalesced :
    (n a : ℕ) (bs : List Block) {p : ℕ} {r : List Block}
    → first_fit n a bs ≡ some (p, r)
    → Coalesced bs
    → Coalesced r
unfolding first_fit
first_fit-Coalesced n a [] h c = cc
first_fit-Coalesced n a (b ∷ bs) {p} {r} h c = elim (Bool-cases (b.free && leb n b.size)) [
  | inl fits ↦
      let is_r : carve n b bs ≡ r = ground arith in
      rw (← is_r) (carve-Coalesced n b bs (ground arith) c)
  | inr misfit ↦ elim (Option-cases (first_fit n (after a b) bs)) [
    | inl nothing ↦ absurd (ground arith)
    | inr ((q, l), found) ↦
        let is_r : b ∷ l ≡ r = ground arith in
        rw (← is_r) (
          ground (arith, head-first_fit n (after a b) bs found),
          first_fit-Coalesced n (after a b) bs found c.1,
        )
  ]
]

kmalloc-IsTidy : (n : ℕ) {g g' : Heap} {p : ℕ} → kmalloc n g ≡ some (p, g') → IsTidy g → IsTidy g'
unfolding kmalloc
kmalloc-IsTidy zero {g} {g'} e (bs, i, c) = (bs, subst (λ x. IsHeap x bs) (cc) i, c)
kmalloc-IsTidy (suc n) {g} {g'} e (bs, i, c) =
    let alloc = kmalloc-Allocates (suc n) (omega arith) i e in
    elim (Option-cases (first_fit (align_up (suc n) alignment) g.base bs)) [
      | inl nothing ↦ (bs, subst (λ x. IsHeap x bs) (sym (rw nothing at alloc).1) i, c)
      | inr ((q, l), found) ↦ (
        l,
        (rw found at alloc).1,
        first_fit-Coalesced (align_up (suc n) alignment) g.base bs found c,
      )
    ]

-- Every session keeps the heap well formed, with no two free neighbours.
pub Session-IsTidy : {h g : Heap} → IsTidy h → Session h g → IsTidy g
Session-IsTidy t begin = t
Session-IsTidy t (allocated n p s small e) = kmalloc-IsTidy n e (Session-IsTidy t s)
Session-IsTidy t (released {g} {g'} p n {bs} s i live e) =
    let (g'', ends, is, _) = kfree-release p n i live in
    (
      release p g.base bs,
      subst (λ x. IsHeap x (release p g.base bs)) (eq_of_some (sym ends ∙ e)) is,
      release-Coalesced p g.base bs,
    )

-- With no live block and no two free neighbours all the room is one free block.
all_back :
    (m : Mem) (a e : ℕ) (bs : List Block)
    → a + heap_size ≡ e
    → Chain m a e bs
    → Coalesced bs
    → ((p n : ℕ) → Live a bs p n → ⊥)
    → bs ≡ initial
all_back m a e [] whole c t unused = absurd (omega (arith, c))
all_back m a e (b ∷ []) whole c t unused = elim (Bool-cases b.free) [
  | inl f ↦
      let same : b ≡ block (heap_size - header_size) true = ground (arith, c.1) in
      ap (λ x. x ∷ []) same
  | inr used ↦ absurd (unused (a + header_size) b.size (inl (used, refl, refl)))
]
all_back m a e (b ∷ d ∷ bs) whole c t unused = elim (Bool-cases b.free) [
  | inl f ↦ elim (Bool-cases d.free) [
    | inl f' ↦ cc (t.0, ap₂ ◌&&◌ f f')
    | inr used ↦ absurd (unused (after a b + header_size) d.size (inr (inl (used, refl, refl))))
  ]
  | inr used ↦ absurd (unused (a + header_size) b.size (inl (used, refl, refl)))
]

-- However a session of calls from `heap_init` on has gone, where the kernel ends above 0 and the
-- zone fits in the address space, the heap is well formed with no two free neighbours, and once
-- nothing is live the blocks are those that `heap_init` made: all the memory is back, in one
-- block.
pub Session-returns :
    (kernel_end : ℕ) (h : Heap) {g : Heap}
    → 0 < kernel_end
    → kernel_end + 4096 + heap_size < word
    → Session (heap_init kernel_end h) g
    → (bs : List Block) × IsHeap g bs
      × Coalesced bs
      × (((p n : ℕ) → Live g.base bs p n → ⊥) → bs ≡ initial)
Session-returns k h {g} pos small s =
    let (bs, i, c) = Session-IsTidy (initial, (heap_init-IsHeap k h pos small).0, ground arith) s in
    (bs, i, c, all_back g.mem g.base (g.base + g.total) bs (omega (arith, i.whole)) i.chain c)
