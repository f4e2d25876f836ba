-- ===== src/Fat16/Alloc.antt =====
-- The chain of a new file of src/fat16.c: the loop of `fat16_write_file` that takes its clusters, as a whole.
use microkernel_os.Prelude.{
  ℕ, zero, suc, ◌+◌, ◌≤◌, ◌<◌, ◌≡◌, ◌≢◌, ◌⊎◌, ◌∙◌, refl, sym, ap, Bool, true, false, ◌||◌, Option,
  none, some, List, [], ◌∷◌, ◌++◌, inl, inr, arith, ◌==◌, if◌then◌else◌, Bool-cases, count_from,
  count_from-le, length, length-append,
}
use microkernel_os.Fat16.{
  Volume, Disk, chain_fuel, fat_read_entry, fat_write_entry, fat_alloc_cluster, fat_free_chain,
  alloc_chain,
}
use microkernel_os.Fat16.Entries.{IsMirrored, IsVolume, IsCluster, fat_alloc_cluster_lem}
use microkernel_os.Fat16.Chain.{occurs, occurs-append, IsChain, IsPath-append, fat_free_chain_lem}
use microkernel_os.Fat16.Grow.{free_test, free_count, IsGrown, first-IsGrown, step-IsGrown}

-- A new chain over clusters that were free; nothing else has changed.
pub record IsNewChain (v : Volume) (d0 d : Disk) (first : ℕ) (cs : List ℕ) : Type 0 where
  pub first_link : 2 ≤ first
  pub chain : IsChain v d first cs
  pub was_free : (b : ℕ) → IsCluster v b → occurs b cs ≡ true → fat_read_entry v d0 b ≡ 0
  pub others :
      (b : ℕ) → IsCluster v b → occurs b cs ≡ false → fat_read_entry v d b ≡ fat_read_entry v d0 b
  pub data_same : (s k : ℕ) → v.data_start_lba ≤ s → d s k ≡ d0 s k
  pub mirrored : IsMirrored v d0 → IsMirrored v d
  pub room : length cs ≤ free_count v d0

-- A failure that leaves every entry and the files' data as they were.
pub record IsNoChain (v : Volume) (d0 d : Disk) (n : ℕ) : Type 0 where
  pub entries : (b : ℕ) → IsCluster v b → fat_read_entry v d b ≡ fat_read_entry v d0 b
  pub data_same : (s k : ℕ) → v.data_start_lba ≤ s → d s k ≡ d0 s k
  pub mirrored : IsMirrored v d0 → IsMirrored v d
  pub short : free_count v d0 < n

-- How the loop ends that is to make a chain of `n` clusters.
abbrev pub Ends : (v : Volume) (d0 : Disk) (n : ℕ) (out : Option ℕ × Disk) → Type 0
Ends v d0 n out =
    ((first : ℕ) × (cs : List ℕ) × (out.0 ≡ some first)
      × (length cs ≡ n)
      × IsNewChain v d0 out.1 first cs)
    ⊎ ((out.0 ≡ none) × IsNoChain v d0 out.1 n)

count_none :
    (n i : ℕ) (p : ℕ → Bool) → ((j : ℕ) → i ≤ j → j < i + n → p j ≡ false) → count_from n i p ≡ 0
unfolding count_from
count_none zero i p none_hit = refl
count_none (suc n) i p none_hit =
    ground (
      arith,
      none_hit i,
      count_none n (i + 1) p (λ j lo hi. none_hit j (omega arith) (omega arith)),
    )

module _ (v : Volume) (iv : IsVolume v) where
  free_count_zero :
      (d : Disk) → ((b : ℕ) → 2 ≤ b → IsCluster v b → fat_read_entry v d b ≢ 0) → free_count v d ≡ 0
  unfolding free_count
  free_count_zero d full =
      count_none v.total_clusters 2 (free_test v d)
        (λ j lo hi. ground (arith, full j lo (omega arith)))

  module _ (d0 d : Disk) (first last : ℕ) (front : List ℕ)
      (g : IsGrown v d0 d first last front) where
    abbrev whole : List ℕ
    whole = front ++ (last ∷ [])

    whole_lem : (b : ℕ) → occurs b whole ≡ (b == last || occurs b front)
    unfolding occurs
    whole_lem b = occurs-append b front (last ∷ []) ∙ ground arith

    whole-IsChain : IsChain v d first whole
    unfolding IsChain
    whole-IsChain = (
      0xFFFF,
      IsPath-append v d first front last 0xFFFF g.path g.last_range.0 g.last_range.1 g.last_end,
      omega arith,
    )

    length-whole : length whole ≡ length front + 1
    length-whole = omega (arith, length-append front (last ∷ []))

    whole-IsNewChain : IsNewChain v d0 d first whole
    whole-IsNewChain = record {
      first_link = g.first_link;
      chain = whole-IsChain;
      was_free = λ b lt o. g.was_free b lt (sym (whole_lem b) ∙ o);
      others = λ b lt o. g.others b lt (sym (whole_lem b) ∙ o);
      data_same = g.data_same;
      mirrored = g.mirrored;
      room = omega (arith, length-whole, g.counted);
    }

    -- What is freed when the next cluster is missing.
    undo-IsNoChain :
        (n : ℕ)
        → length front + 1 < n
        → free_count v d ≡ 0
        → IsNoChain v d0 (fat_free_chain chain_fuel v first d) n
    unfolding free_count
    undo-IsNoChain n lt full =
        let short : length whole ≤ chain_fuel = omega (
          arith,
          length-whole,
          g.counted,
          count_from-le v.total_clusters 2 (free_test v d0),
          iv.clusters,
        ) in
        let freed = fat_free_chain_lem v iv chain_fuel d first whole short whole-IsChain in
        record {
          entries = λ b lt'. freed.0 b lt' ∙ elim (Bool-cases (occurs b whole)) [
            | inl o ↦ rw o (sym (g.was_free b lt' (sym (whole_lem b) ∙ o)))
            | inr o ↦ rw o (g.others b lt' (sym (whole_lem b) ∙ o))
          ];
          data_same = λ s k le. freed.1 s k le ∙ g.data_same s k le;
          mirrored = λ m. freed.2 (g.mirrored m);
          short = omega (arith, g.counted, full);
        }

  -- One round of the loop.
  round_full :
      (rounds i first prev : ℕ) (d d1 : Disk)
      → fat_alloc_cluster v d ≡ (0, d1)
      → alloc_chain (suc rounds) i first prev v d
        ≡ (none, (if first == 0 then d1 else fat_free_chain chain_fuel v first d1))
  unfolding alloc_chain
  round_full rounds i first prev d d1 e = rw e

  round_next :
      (rounds i first prev c : ℕ) (d d1 : Disk)
      → fat_alloc_cluster v d ≡ (c, d1)
      → c ≢ 0
      → alloc_chain (suc rounds) i first prev v d
        ≡ alloc_chain rounds
            (i + 1)
            (if i == 0 then c else first)
            c
            v
            (if i == 0 then d1 else fat_write_entry v prev c d1)
  unfolding alloc_chain
  round_next rounds i first prev c d d1 e ne =
      let e1 : (c == 0) ≡ false = ground (arith, ne) in rw (e, e1)

  run_rounds :
      (rounds i first last : ℕ) (front : List ℕ) (d0 d : Disk)
      → IsGrown v d0 d first last front
      → 1 ≤ i
      → Ends v d0 (length front + 1 + rounds) (alloc_chain rounds i first last v d)
  unfolding alloc_chain
  run_rounds zero i first last front d0 d g later = inl (
    first,
    whole d0 d first last front g,
    refl,
    omega (arith, length-whole d0 d first last front g),
    whole-IsNewChain d0 d first last front g,
  )
  run_rounds (suc rounds) i first last front d0 d g later = elim (fat_alloc_cluster_lem v iv d) [
    | inl (e, full) ↦
        let started : (first == 0) ≡ false = ground (arith, g.first_link) in
        rw (round_full rounds i first last d d e, started)
          (inr (
            refl,
            undo-IsNoChain d0 d first last front g (length front + 1 + suc rounds) (omega arith)
                (free_count_zero d full),
          ))
    | inr (c, t) ↦
        let not_first : (i == 0) ≡ false = ground (arith, later) in
        let d1 : Disk = (fat_alloc_cluster v d).1 in
        let next =
          run_rounds rounds (i + 1) first c (front ++ (last ∷ [])) d0 (fat_write_entry v last c d1)
            (step-IsGrown v iv d0 d first last front c g t) (omega arith) in
        let same : length (front ++ (last ∷ [])) + 1 + rounds ≡ length front + 1 + suc rounds =
          omega (arith, length-append front (last ∷ [])) in
        rw
          (
            round_next rounds i first last c d d1 (ap (λ n. (n, d1)) t.number)
                (λ z. absurd (omega (arith, z, t.range.0))),
            not_first,
          )
          (rw same at next)
  ]

  -- The clusters of a new file: with `n` clusters to take, `n` at least 1, the loop either makes a chain of `n`
  -- clusters that were free, or, where fewer than `n` are free, returns -1. Every other entry, in the second
  -- case every entry, and the files' data are as they were.
  pub alloc_chain_lem : (n : ℕ) (d : Disk) → 1 ≤ n → Ends v d n (alloc_chain n 0 0 0 v d)
  alloc_chain_lem zero d le = absurd (omega arith)
  alloc_chain_lem (suc rounds) d le = elim (fat_alloc_cluster_lem v iv d) [
    | inl (e, full) ↦ rw (round_full rounds 0 0 0 d d e) (
        inr (
          refl,
          record {
            entries = λ b lt. refl;
            data_same = λ s k le'. refl;
            mirrored = λ m. m;
            short = omega (arith, free_count_zero d full);
          },
        ))
    | inr (c, t) ↦
        let d1 : Disk = (fat_alloc_cluster v d).1 in
        let next = run_rounds rounds 1 c c [] d d1 (first-IsGrown v iv d c t) (omega arith) in
        let same : 0 + 1 + rounds ≡ suc rounds = omega arith in
        rw
          (round_next rounds 0 0 0 c d d1 (ap (λ n. (n, d1)) t.number)
            (λ z. absurd (omega (arith, z, t.range.0))))
          (rw same at next)
  ]
