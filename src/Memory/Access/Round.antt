-- ===== src/Memory/Access/Round.antt =====
-- One round of `memory_write` of memory.c, on one page.
use socketapp.Common.{
  ℕ, ◌≡◌, ◌≢◌, ◌⊎◌, refl, sym, ◌∙◌, inl, inr, none, some, List, subst, arith, neg, get_elem?, set,
  length, lt_of_get_elem?, get_elem?-set_self, get_elem?-set_ne, length-set, length-patch, patch,
  get_elem?-set-cases, Option-cases,
}
use socketapp.Memory.Ram.{Ram, frame_count, ram_frame_lookup, ram_frame_index_lookup}
use socketapp.Memory.Ram.Valid.{IsValid, lookup-Maps}
use socketapp.Memory.Cache.{CacheEntry}
use socketapp.Memory.Access.{patch_entry, patch_frame}
use socketapp.Memory.Access.Coherent.{
  contents, AgreesWithRam, IsAbsent, contents_of_some, contents_of_none,
}

-- The memory after a write to frame `f`.
abbrev pub written : Ram → ℕ → ℕ → List ℕ → Ram
written ram f offset bytes = record ram { frames = patch_frame ram.frames f offset bytes }

patch_frame_of_some :
    (frames : List (List ℕ)) (f offset : ℕ) (bytes old : List ℕ)
    → get_elem? frames f ≡ some old
    → patch_frame frames f offset bytes ≡ set frames f (patch old offset bytes)
patch_frame_of_some frames f offset bytes old e = ground arith

patch_entry_of_some :
    (es : List CacheEntry) (i offset : ℕ) (bytes : List ℕ) (old : CacheEntry)
    → get_elem? es i ≡ some old
    → patch_entry es i offset bytes
      ≡ set es i (record old { content = patch old.content offset bytes })
patch_entry_of_some es i offset bytes old e = ground arith

-- The lookup reads the page table, not the frames.
lookup-written :
    (hash : ℕ → ℕ → ℕ) (ram : Ram) (f offset : ℕ) (bytes : List ℕ) (p q : ℕ)
    → ram_frame_lookup hash (written ram f offset bytes) p q ≡ ram_frame_lookup hash ram p q
unfolding ram_frame_lookup ram_frame_index_lookup
lookup-written hash ram f offset bytes p q = refl

patch_frame_of_none :
    (frames : List (List ℕ)) (f offset : ℕ) (bytes : List ℕ)
    → get_elem? frames f ≡ none
    → patch_frame frames f offset bytes ≡ frames
patch_frame_of_none frames f offset bytes e = ground arith

length-patch_frame :
    (frames : List (List ℕ)) (f offset : ℕ) (bytes : List ℕ)
    → length (patch_frame frames f offset bytes) ≡ length frames
length-patch_frame frames f offset bytes = elim (Option-cases (get_elem? frames f)) [
  | inl out ↦ rw (patch_frame_of_none frames f offset bytes out)
  | inr (old, get) ↦ rw (patch_frame_of_some frames f offset bytes old get) (length-set frames f _)
]

pub written-IsValid :
    (ram : Ram) (f offset : ℕ) (bytes : List ℕ) → IsValid ram → IsValid (written ram f offset bytes)
unfolding frame_count
written-IsValid ram f offset bytes v = record {
  bounded = v.bounded;
  nonempty = v.nonempty;
  small = v.small;
  framed = length-patch_frame ram.frames f offset bytes ∙ v.framed;
  counted = v.counted;
  distinct = v.distinct;
}

-- A write keeps the size of every frame.
pub patch_frame_sized :
    (size : ℕ) (frames : List (List ℕ)) (f offset : ℕ) (bytes : List ℕ)
    → ((i : ℕ) (frame : List ℕ) → get_elem? frames i ≡ some frame → length frame ≡ size)
    → (i : ℕ) (frame : List ℕ) → get_elem? (patch_frame frames f offset bytes) i ≡ some frame
    → length frame ≡ size
patch_frame_sized size frames f offset bytes sized i frame get =
    elim (Option-cases (get_elem? frames f)) [
      | inl out ↦ sized i frame (
          subst (λ (l : List (List ℕ)). get_elem? l i ≡ some frame)
            (patch_frame_of_none frames f offset bytes out) get)
      | inr (old, here) ↦
          elim (get_elem?-set-cases frames f i (patch old offset bytes) frame (
            subst (λ (l : List (List ℕ)). get_elem? l i ≡ some frame)
              (patch_frame_of_some frames f offset bytes old here) get)) [
                | inl (_, e) ↦ rw e (length-patch old offset bytes ∙ sized f old here)
                | inr (_, there) ↦ sized i frame there
              ]
    ]

module _ (hash : ℕ → ℕ → ℕ) (ram : Ram) (v : IsValid ram) (pid page f offset : ℕ)
    (bytes old : List ℕ) (found : ram_frame_lookup hash ram pid page ≡ some f)
    (get : get_elem? ram.frames f ≡ some old) where
  pub contents-written_self :
      contents hash (written ram f offset bytes) pid page ≡ some (patch old offset bytes)
  contents-written_self =
      contents_of_some hash (written ram f offset bytes) pid page
        (lookup-written hash ram f offset bytes pid page ∙ found)
      ∙ (rw (patch_frame_of_some ram.frames f offset bytes old get)
          (get_elem?-set_self ram.frames f _ (lt_of_get_elem? ram.frames f get)))

  pub contents-written_other :
      (p q : ℕ)
      → ¬ ((p ≡ pid) × (q ≡ page))
      → contents hash (written ram f offset bytes) p q ≡ contents hash ram p q
  contents-written_other p q other = elim (Option-cases (ram_frame_lookup hash ram p q)) [
    | inl gone ↦
        contents_of_none hash (written ram f offset bytes) p q
          (lookup-written hash ram f offset bytes p q ∙ gone)
        ∙ sym (contents_of_none hash ram p q gone)
    | inr (j, there) ↦
        let m = lookup-Maps hash ram p q v.nonempty there in
        let m' = lookup-Maps hash ram pid page v.nonempty found in
        let ne : f ≢ j = λ e. other (ground arith) in
        contents_of_some hash (written ram f offset bytes) p q
          (lookup-written hash ram f offset bytes p q ∙ there)
        ∙ rw (patch_frame_of_some ram.frames f offset bytes old get)
            (get_elem?-set_ne ram.frames f j _ ne)
        ∙ sym (contents_of_some hash ram p q there)
  ]

  -- The write to the cached copy and the one to the frame leave them in agreement.
  pub patch_entry-AgreesWithRam :
      (es : List CacheEntry) (i : ℕ) (entry : CacheEntry)
      → AgreesWithRam hash ram es
      → pid ≢ neg 1
      → get_elem? es i ≡ some entry
      → entry.pid ≡ pid
      → entry.page ≡ page
      → AgreesWithRam hash (written ram f offset bytes) (patch_entry es i offset bytes)
  patch_entry-AgreesWithRam es i entry a np here p q =
      let used : entry.pid ≢ neg 1 = λ z. np (sym p ∙ z) in
      let holds : contents hash ram pid page ≡ some entry.content =
        rw (← p, ← q) (a.cached i entry here used) in
      let same : entry.content ≡ old = cc (holds, contents_of_some hash ram pid page found, get) in
      let new : CacheEntry = record entry { content = patch entry.content offset bytes } in
      rw (patch_entry_of_some es i offset bytes entry here) (record {
        cached = λ j e get' np'. elim (get_elem?-set-cases es i j new e get') [
          | inl (_, is_new) ↦ rw is_new (rw (p, q, same) contents-written_self)
          | inr (ne, there) ↦
              contents-written_other e.pid e.page
                (λ h. ne (a.unique i j entry e here there used (p ∙ sym h.0) (q ∙ sym h.1)))
              ∙ a.cached j e there np'
        ];
        unique = λ j k e e' get' get'' np' x y.
            pick j k e e' np' x y (get_elem?-set-cases es i j new e get')
              (get_elem?-set-cases es i k new e' get'');
      })
    where
      new : CacheEntry
      new = record entry { content = patch entry.content offset bytes }

      pick :
          (j k : ℕ) (e e' : CacheEntry)
          → e.pid ≢ neg 1
          → e.pid ≡ e'.pid
          → e.page ≡ e'.page
          → ((i ≡ j) × (e ≡ new)) ⊎ ((i ≢ j) × (get_elem? es j ≡ some e))
          → ((i ≡ k) × (e' ≡ new)) ⊎ ((i ≢ k) × (get_elem? es k ≡ some e'))
          → j ≡ k
      pick j k e e' used x y (inl (z, _)) (inl (w, _)) = sym z ∙ w
      pick j k e e' used x y (inl (_, same)) (inr (ne, g)) =
          absurd (ne (a.unique i k entry e' here g (λ z. used (cc)) (cc) (cc)))
      pick j k e e' used x y (inr (ne, g)) (inl (_, same)) =
          absurd (ne (sym (a.unique j i e entry g here used (cc) (cc))))
      pick j k e e' used x y (inr (_, g)) (inr (_, g')) = a.unique j k e e' g g' used x y

  pub absent-AgreesWithRam :
      (es : List CacheEntry)
      → AgreesWithRam hash ram es
      → IsAbsent es pid page
      → AgreesWithRam hash (written ram f offset bytes) es
  absent-AgreesWithRam es a absent = record {
    cached = λ i entry here np.
        contents-written_other entry.pid entry.page (absent i entry here)
        ∙ a.cached i entry here np;
    unique = a.unique;
  }
