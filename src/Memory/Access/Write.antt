-- ===== src/Memory/Access/Write.antt =====
-- `memory_write` of memory.c against the bytes of the pages.
use socketapp.Common.{
  ℕ, zero, suc, ◌+◌, ◌-◌, ◌%◌, ◌≤◌, ◌<◌, ◌≡◌, ◌≢◌, ◌⊎◌, refl, ap, ◌∙◌, inl, inr, false, Option,
  some, List, [], ◌∷◌, ◌++◌, arith, word, neg, ltb, ◌==◌, length, length-drop, length-append,
  length-patch, take, drop, patch, take-drop-patch, patch-nil,
}
use native.Mathlib.Nat.{mod-eq_of_lt}
use socketapp.Memory.Config.{MemoryConfig}
use socketapp.Memory.Cache.{Cache, Clock}
use socketapp.Memory.Access.{Memory, done, current_page_size, write_loop, memory_read, memory_write}
use socketapp.Memory.Access.Coherent.{contents, IsCoherent, contents-length}
use socketapp.Memory.Access.WritePage.{Caching, PageWritten, write_page-PageWritten}
use socketapp.Memory.Access.Read.{memory_read-pages}
use socketapp.Memory.Access.Pages.{pages, pages_split, patch_pieces}

-- Pages that two views share hold the same bytes.
pub pages_congr :
    (view view' : ℕ → Option (List ℕ)) (page n : ℕ)
    → ((q : ℕ) → page ≤ q → q < page + n → view' q ≡ view q)
    → pages view' page n ≡ pages view page n
pages_congr view view' page zero same = refl
pages_congr view view' page (suc n) same =
    let first = same page (omega arith) (omega arith) in
    let others =
      pages_congr view view' (page + 1) n (λ q lo hi. same q (omega arith) (omega arith)) in
    ground arith

pages-cons :
    (view : ℕ → Option (List ℕ)) (page n : ℕ) (bytes rest : List ℕ)
    → view page ≡ some bytes
    → pages view (page + 1) n ≡ some rest
    → pages view page (suc n) ≡ some (bytes ++ rest)
pages-cons view page n bytes rest first others = ground arith

module _ (config : MemoryConfig) (clocks : Clock) (hash : ℕ → ℕ → ℕ) where
  -- `memory'` is `memory` with `buffer` written at `offset` of the `n` pages from `page` on, which
  -- held `all`.
  pub record Written (memory memory' : Memory) (pid page n offset : ℕ) (buffer all : List ℕ)
      : Type 0 where
    pub coherent : IsCoherent config hash memory'
    pub pages_are : pages (contents hash memory'.ram pid) page n ≡ some (patch all offset buffer)
    pub others :
        (p q : ℕ)
        → (p ≢ pid) ⊎ (q < page) ⊎ (page + n ≤ q)
        → contents hash memory'.ram p q ≡ contents hash memory.ram p q

  module _ {Kept : Cache → Type 0} (caching : Caching config clocks Kept) (pid : ℕ)
      (np : pid ≢ neg 1) where
    write_loop-step :
        (fuel page offset : ℕ) (memory : Memory) (buffer old : List ℕ) (wrote : ℕ)
        → IsCoherent config hash memory
        → Kept memory.cache
        → 0 < length buffer
        → offset ≤ config.frame_size
        → contents hash memory.ram pid page ≡ some old
        → let n = current_page_size config.frame_size offset (length buffer) in
          (memory' : Memory) × PageWritten config clocks hash memory memory' pid page offset
            (take n buffer)
            old
          × Kept memory'.cache
          × (write_loop config clocks hash (suc fuel) memory pid page offset buffer wrote
              ≡ write_loop config clocks hash fuel memory' pid
                  ((page + 1) % word)
                  0
                  (drop n buffer)
                  (wrote + n))
    unfolding write_loop
    write_loop-step fuel page offset memory buffer old wrote v kept pos inside here =
        let n = current_page_size config.frame_size offset (length buffer) in
        let (memory', run, w, kept') =
          write_page-PageWritten config clocks hash caching memory pid page offset (take n buffer)
            old v kept np here in
        let e₁ : (length buffer == 0) ≡ false = ground arith in
        let e₂ : ltb config.frame_size offset ≡ false = ground arith in
        (memory', w, kept', rw (e₁, e₂, ap (λ r. r.0) run, ap (λ r. r.1) run, write_loop))

    Written-cons :
        (m₁ m₂ m₃ : Memory) (page n offset : ℕ) (buffer old rest all : List ℕ)
        → all ≡ old ++ rest
        → length old ≡ config.frame_size
        → offset ≤ config.frame_size
        → let k = current_page_size config.frame_size offset (length buffer) in
          PageWritten config clocks hash m₁ m₂ pid page offset (take k buffer) old
          → Written m₂ m₃ pid (page + 1) n 0 (drop k buffer) rest
          → Written m₁ m₃ pid page (suc n) offset buffer all
    Written-cons m₁ m₂ m₃ page n offset buffer old rest all e sized inside a b = record {
      coherent = b.coherent;
      pages_are =
          pages-cons (contents hash m₃.ram pid) page n _ _
            (b.others pid page (inr (inl (omega arith))) ∙ a.page_is) b.pages_are
          ∙ ap some (rw e (patch_pieces config.frame_size offset old rest buffer sized inside));
      others = λ p q out. elim out [
        | inl other ↦ b.others p q (inl other) ∙ a.others p q (λ h. other h.0)
        | inr (inl below) ↦
            b.others p q (inr (inl (omega arith))) ∙ a.others p q (λ h. omega (arith, h.1))
        | inr (inr above) ↦
            b.others p q (inr (inr (omega arith))) ∙ a.others p q (λ h. omega (arith, h.1))
      ];
    }

    write_loop-Written :
        (n fuel page offset : ℕ) (memory : Memory) (buffer all : List ℕ) (wrote : ℕ)
        → IsCoherent config hash memory
        → Kept memory.cache
        → page + n < word
        → offset < config.frame_size
        → length buffer < fuel
        → pages (contents hash memory.ram pid) page n ≡ some all
        → offset + length buffer ≤ length all
        → (memory' : Memory) × Written memory memory' pid page n offset buffer all
          × Kept memory'.cache
          × (write_loop config clocks hash fuel memory pid page offset buffer wrote
              ≡ (done (wrote + length buffer), memory'))
    unfolding write_loop
    write_loop-Written n zero page offset memory buffer all wrote v kept small inside lt here fits =
        absurd (omega arith)
    write_loop-Written n (suc fuel) page offset memory [] all wrote v kept small inside lt here
          fits =
        let e : wrote + 0 ≡ wrote = omega arith in
        (
          memory,
          record { coherent = v; pages_are = rw patch-nil here; others = λ p q out. refl },
          kept,
          rw e,
        )
    write_loop-Written zero (suc fuel) page offset memory (b ∷ buffer) all wrote v kept small inside
          lt here fits =
        let e : all ≡ [] = ground arith in
        let e' : length all ≡ 0 = ap length e in absurd (omega arith)
    write_loop-Written (suc n) (suc fuel) page offset memory (b ∷ buffer) all wrote v kept small
          inside lt here fits =
        let (old, rest, first, others, e) =
          pages_split (contents hash memory.ram pid) page n here in
        let sized = contents-length config hash memory pid page v first in
        let whole : List ℕ = b ∷ buffer in
        let k = current_page_size config.frame_size offset (length whole) in
        let (mid, w, kept', step) =
          write_loop-step fuel page offset memory whole old wrote v kept (omega arith) (omega arith)
            first in
        let both : length all ≡ length old + length rest = ap length e ∙ length-append old rest in
        let left : length (drop k whole) ≡ length whole - k = length-drop k whole in
        let some_bytes : (0 < k) × (k ≤ length whole) × (length whole - k ≤ length rest) =
          ground arith in
        let (memory', w', kept'', run) =
          write_loop-Written n fuel (page + 1) 0 mid (drop k whole) rest (wrote + k) w.coherent
            kept' (omega arith) (omega arith) (omega arith)
            (pages_congr (contents hash memory.ram pid) (contents hash mid.ram pid) (page + 1) n
                (λ q lo hi. w.others pid q (λ h. omega (arith, h.1)))
              ∙ others)
            (omega arith) in
        let wrap : (page + 1) % word ≡ page + 1 = mod-eq_of_lt (omega arith) in
        let total : wrote + k + length (drop k whole) ≡ wrote + length whole = omega arith in
        (
          memory',
          Written-cons memory mid memory' page n offset whole old rest all e sized (omega arith) w
              w',
          kept'',
          step ∙ rw wrap (run ∙ ap (λ t. (done t, memory')) total),
        )

    -- Writing through the cache is writing RAM. Over a coherent state whose cache finds an entry
    -- for every page (or caches nothing, with a quota of 0), for a process whose `n` pages from
    -- `page` on are there and hold `all`: a request to write `buffer` from `offset` on, which starts
    -- in the first page and ends within them, ends and answers the number of bytes; afterwards the
    -- pages hold `all` with `buffer` in its place, over every boundary of a page, every other page
    -- of every process holds what it held, and the state is coherent again.
    pub memory_write-Written :
        (memory : Memory) (n page offset : ℕ) (buffer all : List ℕ)
        → IsCoherent config hash memory
        → Kept memory.cache
        → page + n < word
        → offset < config.frame_size
        → pages (contents hash memory.ram pid) page n ≡ some all
        → offset + length buffer ≤ length all
        → (memory' : Memory) × Written memory memory' pid page n offset buffer all
          × Kept memory'.cache
          × (memory_write config clocks hash memory pid page offset buffer
              ≡ (done (length buffer), memory'))
    unfolding memory_write
    memory_write-Written memory n page offset buffer all v kept small inside here fits =
        let e : 0 + length buffer ≡ length buffer = omega arith in
        rw e at (
          write_loop-Written n (length buffer + 2) page offset memory buffer all 0 v kept small
            inside (omega arith) here fits)

  module _ {Kept : Cache → Type 0} (caching : Caching config clocks Kept) (pid : ℕ)
      (np : pid ≢ neg 1) where
    -- What was written is what is read: under the conditions of `memory_write-Written`, a read of as
    -- many bytes at the same place right after the write ends and answers the buffer.
    pub memory_read-memory_write :
        (memory : Memory) (n page offset : ℕ) (buffer all : List ℕ)
        → IsCoherent config hash memory
        → Kept memory.cache
        → page + n < word
        → offset < config.frame_size
        → pages (contents hash memory.ram pid) page n ≡ some all
        → offset + length buffer ≤ length all
        → (written : Memory) × (memory_write config clocks hash memory pid page offset buffer
            ≡ (done (length buffer), written))
          × (after : Memory) × (memory_read config clocks hash written pid page offset
                (length buffer)
              ≡ (done buffer, after))
    memory_read-memory_write memory n page offset buffer all v kept small inside here fits =
        let (written, w, _, run) =
          memory_write-Written caching pid np memory n page offset buffer all v kept small inside
            here fits in
        let (after, _, read) =
          memory_read-pages config clocks hash pid np written n page offset (length buffer)
            (patch all offset buffer) w.coherent small inside w.pages_are (rw length-patch fits) in
        (
          written,
          run,
          after,
          read ∙ ap (λ l. (done l, after)) (take-drop-patch all offset buffer fits),
        )
