-- ===== src/Memory/Ram/Insert.antt =====
-- `insert_proccess_page` and the requests for pages of ram.c.
use socketapp.Common.{
  ℕ, zero, suc, ◌+◌, ◌%◌, ◌≤◌, ◌<◌, ◌≡◌, ◌≢◌, ◌⊎◌, refl, sym, ◌∙◌, inl, inr, true, some, subst,
  arith, word, neg, get_elem?, set, lt_of_get_elem?, get_elem?-set_self, get_elem?-set_ne,
  length-set, Option-cases,
}
use native.Mathlib.Nat.{mod-eq_of_lt}
use native.Mathlib.Decide.{ℕ_discrete}
use socketapp.Memory.Ram.{
  PageTableEntry, Ram, is_frame_free, frame_count, probe, insert_process_page, insert_pages,
}
use socketapp.Memory.Ram.Probe.{probe-finds, probe-none}
use socketapp.Memory.Ram.Count.{count_first-set, count_first-pos}
use socketapp.Memory.Ram.Valid.{entry_of, Maps, IsDistinct, IsValidWith}

-- The memory after page `page` of process `pid` has got frame `i`.
abbrev pub placed : Ram → ℕ → ℕ → ℕ → Ram
placed ram i pid page = record ram { page_table = set ram.page_table i (entry_of pid page) }

-- `ram'` has the pages of `ram` at their frames, and new ones: the `n` pages of `pid` from `start` on.
pub record Allocated (ram ram' : Ram) (pid start n : ℕ) : Type 0 where
  pub same_count : ram'.process_page_count ≡ ram.process_page_count
  pub same_frames : ram'.frames ≡ ram.frames
  pub same_free : ram'.free_frame_count ≡ ram.free_frame_count
  pub kept : (p q j : ℕ) → p ≢ neg 1 → Maps ram p q j → Maps ram' p q j
  pub added : (q : ℕ) → start ≤ q → q < start + n → (j : ℕ) × Maps ram' pid q j
  pub nothing_else :
      (p q j : ℕ)
      → p ≢ neg 1
      → Maps ram' p q j
      → Maps ram p q j ⊎ ((p ≡ pid) × (start ≤ q) × (q < start + n))

module _ (hash : ℕ → ℕ → ℕ) {k : ℕ} (ram : Ram) (pid page : ℕ) (v : IsValidWith (suc k) ram) where
  insert-free :
      (i : ℕ) × (insert_process_page hash ram pid page ≡ some (i, placed ram i pid page))
      × (i < ram.process_page_count)
      × (entry : PageTableEntry) × (get_elem? ram.page_table i ≡ some entry)
      × (is_frame_free entry ≡ true)
  unfolding insert_process_page frame_count
  insert-free =
      let count = ram.process_page_count in
      let start = hash pid page % count in
      let (j, j_lt, free, j_get, j_free) =
        count_first-pos is_frame_free count ram.page_table (omega (arith, v.counted)) in
      elim (Option-cases (probe is_frame_free ram.page_table count count start)) [
        | inl e ↦
            let busy =
              probe-none is_frame_free ram.page_table count start j free (grind (arith, v.nonempty))
                v.bounded e j_lt j_get in
            absurd (cc (busy, j_free))
        | inr (i, e) ↦
            let (lt, entry, get, hit) =
              probe-finds is_frame_free ram.page_table count count start (grind (arith, v.nonempty))
                e in
            (i, rw (e, insert_process_page), lt, entry, get, hit)
      ]

  module _ (np : pid ≢ neg 1) (fresh : (i : ℕ) → ¬ (Maps ram pid page i)) (i : ℕ)
      (lt : i < ram.process_page_count) (entry : PageTableEntry)
      (get : get_elem? ram.page_table i ≡ some entry) (free : is_frame_free entry ≡ true) where
    placed-kept : (p q j : ℕ) → p ≢ neg 1 → Maps ram p q j → Maps (placed ram i pid page) p q j
    placed-kept p q j h m = (m.0, get_elem?-set_ne ram.page_table i j _ apart ∙ m.1)
      where
        apart : i ≢ j
        apart e = ground arith

    placed-only :
        (p q j : ℕ)
        → Maps (placed ram i pid page) p q j
        → Maps ram p q j ⊎ ((p ≡ pid) × (q ≡ page) × (j ≡ i))
    placed-only p q j m = elim (ℕ_discrete i j) [
      | no ne ↦ inl (m.0, sym (get_elem?-set_ne ram.page_table i j _ ne) ∙ m.1)
      | yes e ↦ inr (
          ground (
            arith,
            get_elem?-set_self ram.page_table i (entry_of pid page)
                (lt_of_get_elem? ram.page_table i get),
          ))
    ]

    placed-count :
        frame_count is_frame_free (placed ram i pid page) + 1 ≡ frame_count is_frame_free ram
    unfolding frame_count
    placed-count = ground (
      arith,
      count_first-set is_frame_free ram.process_page_count ram.page_table i entry
          (entry_of pid page) lt get,
    )

    placed-IsDistinct : IsDistinct (placed ram i pid page)
    placed-IsDistinct p q a b h m n = joined (placed-only p q a m) (placed-only p q b n)
      where
        joined :
            Maps ram p q a ⊎ ((p ≡ pid) × (q ≡ page) × (a ≡ i))
            → Maps ram p q b ⊎ ((p ≡ pid) × (q ≡ page) × (b ≡ i))
            → a ≡ b
        joined (inl m₁) (inl m₂) = v.distinct p q a b h m₁ m₂
        joined (inl m₁) (inr (e₁, e₂, _)) = absurd (fresh a (rw (← e₁, ← e₂) m₁))
        joined (inr (e₁, e₂, _)) (inl m₂) = absurd (fresh b (rw (← e₁, ← e₂) m₂))
        joined (inr (_, _, e₁)) (inr (_, _, e₂)) = e₁ ∙ sym e₂

    placed-IsValidWith : IsValidWith k (placed ram i pid page)
    placed-IsValidWith = record {
      bounded = rw length-set v.bounded;
      nonempty = v.nonempty;
      small = v.small;
      framed = v.framed;
      counted = omega (arith, v.counted, placed-count);
      distinct = placed-IsDistinct;
    }

    placed-Maps : Maps (placed ram i pid page) pid page i
    placed-Maps = (lt, get_elem?-set_self ram.page_table i _ (lt_of_get_elem? ram.page_table i get))

    placed-Allocated : Allocated ram (placed ram i pid page) pid page 1
    placed-Allocated = record {
      same_count = refl;
      same_frames = refl;
      same_free = refl;
      kept = placed-kept;
      added = λ q lo hi. let e : page ≡ q = omega arith in (i, rw (← e) placed-Maps);
      nothing_else = λ p q j h m. grind (arith, placed-only p q j m);
    }

-- A request's first page and its other pages are one request.
pub Allocated-trans :
    {ram mid ram' : Ram} (pid start n : ℕ)
    → pid ≢ neg 1
    → Allocated ram mid pid start 1
    → Allocated mid ram' pid (start + 1) n
    → Allocated ram ram' pid start (suc n)
Allocated-trans {ram} {mid} {ram'} pid start n np a b = record {
  same_count = b.same_count ∙ a.same_count;
  same_frames = b.same_frames ∙ a.same_frames;
  same_free = b.same_free ∙ a.same_free;
  kept = λ p q j h m. b.kept p q j h (a.kept p q j h m);
  added = λ q lo hi. elim (ℕ_discrete start q) [
    | yes e ↦ let (j, m) = a.added q lo (omega arith) in (j, b.kept pid q j np m)
    | no ne ↦ b.added q (omega arith) (omega arith)
  ];
  nothing_else = λ p q j h m. split p q j h (b.nothing_else p q j h m);
}
  where
    split :
        (p q j : ℕ)
        → p ≢ neg 1
        → Maps mid p q j ⊎ ((p ≡ pid) × (start + 1 ≤ q) × (q < start + 1 + n))
        → Maps ram p q j ⊎ ((p ≡ pid) × (start ≤ q) × (q < start + suc n))
    split p q j h (inr (e, lo, hi)) = inr (e, omega arith, omega arith)
    split p q j h (inl m) = elim (a.nothing_else p q j h m) [
      | inl old ↦ inl old
      | inr (e, lo, hi) ↦ inr (e, omega arith, omega arith)
    ]

pub Allocated-refl : (ram : Ram) (pid start : ℕ) → Allocated ram ram pid start 0
Allocated-refl ram pid start = record {
  same_count = refl;
  same_frames = refl;
  same_free = refl;
  kept = λ p q j h m. m;
  added = λ q lo hi. absurd (omega arith);
  nothing_else = λ p q j h m. inl m;
}

pub IsValidWith-congr : {k l : ℕ} {ram : Ram} → k ≡ l → IsValidWith k ram → IsValidWith l ram
IsValidWith-congr {ram = ram} e v = subst (λ n. IsValidWith n ram) e v

module _ (hash : ℕ → ℕ → ℕ) where
  -- One insertion of a fresh page that a reserved frame is there for.
  pub insert_process_page-Allocated :
      (k : ℕ) (ram : Ram) (pid page : ℕ)
      → pid ≢ neg 1
      → ((i : ℕ) → ¬ (Maps ram pid page i))
      → IsValidWith (suc k) ram
      → (i : ℕ) × (ram' : Ram) × (insert_process_page hash ram pid page ≡ some (i, ram'))
        × Maps ram' pid page i
        × IsValidWith k ram'
        × Allocated ram ram' pid page 1
  insert_process_page-Allocated k ram pid page np fresh v =
      let (i, inserted, lt, entry, get, free) = insert-free hash ram pid page v in
      (
        i,
        placed ram i pid page,
        inserted,
        placed-Maps hash ram pid page v np fresh i lt entry get free,
        placed-IsValidWith hash ram pid page v np fresh i lt entry get free,
        placed-Allocated hash ram pid page v np fresh i lt entry get free,
      )

  -- With `n` frames taken from the pool, the loop ends and gives the `n` pages their frames.
  pub insert_pages-Allocated :
      (n k : ℕ) (ram : Ram) (pid start : ℕ)
      → pid ≢ neg 1
      → start + n < word
      → ((q i : ℕ) → start ≤ q → q < start + n → ¬ (Maps ram pid q i))
      → IsValidWith (n + k) ram
      → (ram' : Ram) × (insert_pages hash n ram pid start ≡ some ram')
        × IsValidWith k ram'
        × Allocated ram ram' pid start n
  unfolding insert_pages
  insert_pages-Allocated zero k ram pid start np small fresh v =
      (ram, refl, IsValidWith-congr (omega arith) v, Allocated-refl ram pid start)
  insert_pages-Allocated (suc n) k ram pid start np small fresh v =
      let (i, mid, inserted, _, valid₁, a) =
        insert_process_page-Allocated (n + k) ram pid start np
          (λ j. fresh start j (omega arith) (omega arith)) (IsValidWith-congr (omega arith) v) in
      let (ram', rest, valid, b) =
        insert_pages-Allocated n k mid pid (start + 1) np (omega arith)
          (λ q j lo hi m. elim (a.nothing_else pid q j np m) [
            | inl old ↦ fresh q j (omega arith) (omega arith) old
            | inr (_, _, below) ↦ omega arith
          ])
          valid₁ in
      let wrap : (start + 1) % word ≡ start + 1 = mod-eq_of_lt (omega arith) in
      (ram', rw (inserted, insert_pages, wrap) rest, valid, Allocated-trans pid start n np a b)
