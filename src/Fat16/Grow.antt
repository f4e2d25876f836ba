-- ===== src/Fat16/Grow.antt =====
-- The loop of `fat16_write_file` of src/fat16.c that takes clusters and links them into a chain.
use microkernel_os.Prelude.{
  ℕ, ◌+◌, ◌≤◌, ◌<◌, ◌≡◌, ◌≢◌, ◌∙◌, refl, sym, ap, Bool, true, false, ◌&&◌, ◌||◌, List, [], ◌∷◌,
  ◌++◌, inl, inr, arith, ltb, ◌==◌, if◌then◌else◌, Bool-cases, count_from, count_from-flip, length,
  length-append,
}
use microkernel_os.Fat16.{Volume, Disk, fat_read_entry, fat_write_entry, fat_alloc_cluster}
use microkernel_os.Fat16.Entries.{
  IsMirrored, write-IsMirrored, IsVolume, IsCluster, read-write, write-data, Taken,
}
use microkernel_os.Fat16.Chain.{occurs, occurs-append, IsPath, IsPath-frame, IsPath-append}

-- The number of free clusters.
abbrev pub free_test : Volume → Disk → ℕ → Bool
free_test v d c = ltb c (v.total_clusters + 2) && fat_read_entry v d c == 0

unfoldable pub free_count : Volume → Disk → ℕ
free_count v d = count_from v.total_clusters 2 (free_test v d)

-- The chain that the loop has made: it leads through `front` to its last cluster.
pub record IsGrown (v : Volume) (d0 d : Disk) (first last : ℕ) (front : List ℕ) : Type 0 where
  pub path : IsPath v d first front last
  pub first_link : 2 ≤ first
  pub last_range : (2 ≤ last) × (last < v.total_clusters + 2)
  pub last_end : fat_read_entry v d last ≡ 0xFFFF
  pub last_new : occurs last front ≡ false
  pub used : (b : ℕ) → IsCluster v b → occurs b front ≡ true → fat_read_entry v d b ≢ 0
  pub was_free :
      (b : ℕ) → IsCluster v b → (b == last || occurs b front) ≡ true → fat_read_entry v d0 b ≡ 0
  pub others :
      (b : ℕ)
      → IsCluster v b
      → (b == last || occurs b front) ≡ false
      → fat_read_entry v d b ≡ fat_read_entry v d0 b
  pub data_same : (s k : ℕ) → v.data_start_lba ≤ s → d s k ≡ d0 s k
  pub mirrored : IsMirrored v d0 → IsMirrored v d
  pub counted : free_count v d + length front + 1 ≡ free_count v d0

module _ (v : Volume) (iv : IsVolume v) where
  -- A cluster that is taken is one less.
  pub free_count_take :
      (d d' : Disk) (c : ℕ)
      → 2 ≤ c
      → IsCluster v c
      → fat_read_entry v d c ≡ 0
      → fat_read_entry v d' c ≢ 0
      → ((b : ℕ)
          → IsCluster v b
          → b ≢ c
          → (fat_read_entry v d' b == 0) ≡ (fat_read_entry v d b == 0))
      → free_count v d' + 1 ≡ free_count v d
  unfolding free_count
  free_count_take d d' c lo hi free used entries = sym (
      count_from-flip v.total_clusters 2 c (free_test v d') (free_test v d) lo (omega arith)
        (ground (arith, used)) (ground (arith, free, hi))
        (λ j other. elim (Bool-cases (ltb j (v.total_clusters + 2))) [
          | inl h ↦ rw h (entries j (ground (arith, h)) other)
          | inr h ↦ rw h
        ]))

  pub first-IsGrown :
      (d : Disk) (c : ℕ)
      → Taken v d (fat_alloc_cluster v d) c
      → IsGrown v d (fat_alloc_cluster v d).1 c c []
  unfolding occurs IsPath
  first-IsGrown d c t =
      let end : fat_read_entry v (fat_alloc_cluster v d).1 c ≡ 0xFFFF =
        t.entries c t.range.1 ∙ ground arith in
      record {
        path = refl;
        first_link = t.range.0;
        last_range = t.range;
        last_end = end;
        last_new = refl;
        used = λ b lt o. absurd (ground (arith, o));
        was_free = λ b lt o. let e : b ≡ c = ground (arith, o) in rw e t.free;
        others = λ b lt o. t.entries b lt ∙ ground (arith, o);
        data_same = t.data_same;
        mirrored = t.mirrored;
        counted = omega (
          arith,
          free_count_take d (fat_alloc_cluster v d).1 c t.range.0 t.range.1 t.free
              (ground (arith, end)) (λ b lt ne. rw (t.entries b lt) (ground (arith, ne))),
        );
      }

  module _ (d0 d : Disk) (first last : ℕ) (front : List ℕ) (c : ℕ)
      (g : IsGrown v d0 d first last front) (t : Taken v d (fat_alloc_cluster v d) c) where
    abbrev pub linked : Disk
    linked = fat_write_entry v last c (fat_alloc_cluster v d).1

    entries_linked :
        (b : ℕ)
        → IsCluster v b
        → fat_read_entry v linked b
          ≡ (if last == b then c else if c == b then 0xFFFF else fat_read_entry v d b)
    entries_linked b lt =
        read-write v iv last c b (fat_alloc_cluster v d).1 g.last_range.1 lt
          (omega (arith, t.range.1, iv.clusters))
        ∙ rw (t.entries b lt)

    not_last : c ≢ last
    not_last e = absurd (ground (arith, t.free, g.last_end, ap (fat_read_entry v d) e))

    not_front : occurs c front ≡ false
    not_front = elim (Bool-cases (occurs c front)) [
      | inl o ↦ absurd (g.used c t.range.1 o t.free)
      | inr o ↦ o
    ]

    occurs_next : (b : ℕ) → occurs b (front ++ (last ∷ [])) ≡ (occurs b front || b == last)
    unfolding occurs
    occurs_next b = occurs-append b front (last ∷ []) ∙ ground arith

    other_than : (b x : ℕ) → occurs b front ≡ true → occurs x front ≡ false → b ≢ x
    other_than b x o n e = absurd (ground (arith, n, (rw e at o)))

    IsPath-next : IsPath v linked first (front ++ (last ∷ [])) c
    IsPath-next =
        IsPath-append v linked first front last c
          (IsPath-frame v d linked first front last
            (λ b lt o.
              let ne1 = other_than b last o g.last_new in
              let ne2 = other_than b c o not_front in
              entries_linked b lt ∙ ground (arith, ne1, ne2))
            g.path)
          g.last_range.0 g.last_range.1 (entries_linked last g.last_range.1 ∙ ground arith)

    count_next : free_count v linked + 1 ≡ free_count v d
    count_next =
        free_count_take d linked c t.range.0 t.range.1 t.free
          (ground (arith, entries_linked c t.range.1, not_last))
          (λ b lt ne. elim (Bool-cases (last == b)) [
            | inl e ↦
                let same : b ≡ last = ground (arith, e) in
                rw (same, entries_linked last g.last_range.1, g.last_end)
                  (ground (arith, t.range.0))
            | inr e ↦ rw (entries_linked b lt, e) (ground (arith, ne))
          ])

    pub step-IsGrown : IsGrown v d0 linked first c (front ++ (last ∷ []))
    step-IsGrown = record {
      path = IsPath-next;
      first_link = g.first_link;
      last_range = t.range;
      last_end = entries_linked c t.range.1 ∙ ground (arith, not_last);
      last_new = occurs_next c ∙ ground (arith, not_front, not_last);
      used = λ b lt o. elim (Bool-cases (b == last)) [
        | inl e ↦
            let same : b ≡ last = ground (arith, e) in
            rw (same, entries_linked last g.last_range.1) (ground (arith, t.range.0))
        | inr e ↦
            let inside : occurs b front ≡ true = ground (arith, occurs_next b, o, e) in
            let ne = other_than b c inside not_front in
            rw (entries_linked b lt) (ground (arith, e, ne, g.used b lt inside))
      ];
      was_free = λ b lt o. elim (Bool-cases (b == last || occurs b front)) [
        | inl e ↦ g.was_free b lt e
        | inr e ↦
            let same : b ≡ c = ground (arith, occurs_next b, o, e) in
            sym (g.others b lt e) ∙ rw same t.free
      ];
      others = λ b lt o.
          let out : (b == last || occurs b front) ≡ false = ground (arith, occurs_next b, o) in
          entries_linked b lt ∙ ground (arith, o, out, g.others b lt out);
      data_same = λ s k le.
          write-data v iv last c s k (fat_alloc_cluster v d).1 g.last_range.1 le
          ∙ t.data_same s k le
          ∙ g.data_same s k le;
      mirrored = λ m.
          write-IsMirrored v iv last c (fat_alloc_cluster v d).1 g.last_range.1
            (t.mirrored (g.mirrored m));
      counted = omega (arith, count_next, g.counted, length-append front (last ∷ []));
    }
