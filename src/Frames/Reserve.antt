-- ===== src/Frames/Reserve.antt =====
-- Reserving physical memory in src/mm/vmm.c: vmm_reserve_phys_range, whose body
-- frame_reserve_range_bytes repeats.
use eyn_os.Base.{
  ℕ, zero, suc, ◌+◌, ◌*◌, ◌/◌, ◌%◌, ◌-◌, ◌^◌, ◌<◌, ◌≤◌, ◌≡◌, ◌∙◌, refl, sym, ap, Bool, true, false,
  ◌&&◌, ◌||◌, leb, ltb, ◌==◌, if◌then◌else◌, arith, inl, inr, Bool-cases,
}
use eyn_os.Frames.{Frames, page_size, frame_set, frame_test}
use eyn_os.Frames.Bit.{frame_test-set}

-- A frame is taken out of use, and counted if it was free.
abbrev pub reserve_frame : ℕ → Frames → Frames
reserve_frame n s =
    if frame_test s n then s else record (frame_set n s) { free_frames = s.free_frames - 1 }

-- The frames of `left` pages from `pa` on, as long as there are such frames.
unfoldable pub reserve_pages : (left pa : ℕ) → Frames → Frames
reserve_pages zero pa s = s
reserve_pages (suc left) pa s =
    let more = reserve_pages left (pa + page_size) (reserve_frame (pa / page_size) s) in
    if leb s.total_frames (pa / page_size) then s else more

abbrev page_floor : ℕ → ℕ
page_floor n = n / page_size * page_size

unfoldable pub reserve_phys_range : (phys_start phys_end : ℕ) → Frames → Frames
reserve_phys_range phys_start phys_end s =
    if leb phys_end phys_start
    then s
    else let start = page_floor phys_start in
      let end = page_floor ((phys_end + page_size + 2 ^ 32 - 1) % 2 ^ 32) in
      reserve_pages ((end - start) / page_size) start s

reserve_frame-marks :
    (n m : ℕ) (s : Frames)
    → (frame_test (reserve_frame n s) m ≡ ((n == m) || frame_test s m))
      × ((reserve_frame n s).total_frames ≡ s.total_frames)
reserve_frame-marks n m s = elim (Bool-cases (frame_test s n)) [
  | inl used ↦ elim (Bool-cases (n == m)) [
    | inl same ↦
        let here : n ≡ m = ground arith in
        let set : frame_test s m ≡ true = ap (frame_test s) (sym here) ∙ used in
        rw (used, same) (set, refl)
    | inr other ↦ rw (used, other) (refl, refl)
  ]
  | inr free ↦ rw free (frame_test-set s n m, refl)
]

-- Whether `left` frames from the `q`-th on, below `total`, hold the frame `m`.
abbrev met : (left q total m : ℕ) → Bool
met left q total m = leb q m && ltb m (q + left) && ltb m total

met_next :
    (left q total m : ℕ)
    → q < total
    → met (suc left) q total m ≡ (met left (q + 1) total m || (q == m))
met_next left q total m h = ground arith

met_past : (left q total m : ℕ) → total ≤ q → met left q total m ≡ false
met_past left q total m h = ground arith

met_none : (q total m : ℕ) → met 0 q total m ≡ false
met_none q total m = ground arith

or_assoc : (a b x : Bool) → (a || (b || x)) ≡ ((a || b) || x)
or_assoc true b x = refl
or_assoc false b x = refl

reserve_pages-marks :
    (left pa m : ℕ) (s : Frames)
    → frame_test (reserve_pages left pa s) m
      ≡ (met left (pa / page_size) s.total_frames m || frame_test s m)
unfolding reserve_pages
reserve_pages-marks zero pa m s = rw (met_none (pa / page_size) s.total_frames m) refl
reserve_pages-marks (suc left) pa m s =
    let q = pa / page_size in
    elim (Bool-cases (leb s.total_frames q)) [
      | inl past ↦ rw (past, met_past (suc left) q s.total_frames m (ground arith)) refl
      | inr there ↦
          let t = reserve_frame q s in
          let (marks, total) = reserve_frame-marks q m s in
          let page : (pa + page_size) / page_size ≡ q + 1 = omega arith in
          simp there (
            reserve_pages-marks left (pa + page_size) m t
            ∙ ap (λ (n : ℕ). met left n t.total_frames m || frame_test t m) page
            ∙ ap (λ (n : ℕ). met left (q + 1) n m || frame_test t m) total
            ∙ ap (λ (x : Bool). met left (q + 1) s.total_frames m || x) marks
            ∙ or_assoc (met left (q + 1) s.total_frames m) (q == m) (frame_test s m)
            ∙ ap (λ (x : Bool). x || frame_test s m)
                (sym (met_next left q s.total_frames m (ground arith))))
    ]

leb_as_ltb : (a b c d : ℕ) → (a ≤ b → c < d) → (c < d → a ≤ b) → leb a b ≡ ltb c d
leb_as_ltb a b c d to from = ground arith

ltb_as_ltb : (a b c d : ℕ) → (a < b → c < d) → (c < d → a < b) → ltb a b ≡ ltb c d
ltb_as_ltb a b c d to from = ground arith

-- The pages from the one that holds the first byte to the one that holds the last.
met_range :
    (phys_start phys_end total m : ℕ)
    → phys_start < phys_end
    → phys_end + page_size ≤ 2 ^ 32
    → met
        ((page_floor ((phys_end + page_size + 2 ^ 32 - 1) % 2 ^ 32) - page_floor phys_start)
          / page_size)
        (page_floor phys_start / page_size)
        total
        m
      ≡ (ltb phys_start ((m + 1) * page_size) && ltb (m * page_size) phys_end && ltb m total)
met_range phys_start phys_end total m h b =
    let q = phys_start / page_size in
    let last = (phys_end + 4095) / page_size in
    let end : (phys_end + page_size + 2 ^ 32 - 1) % 2 ^ 32 / page_size ≡ last = omega arith in
    let pages : (last * page_size - q * page_size) / page_size ≡ last - q = omega arith in
    let first : q * page_size / page_size ≡ q = omega arith in
    let low : leb q m ≡ ltb phys_start ((m + 1) * page_size) =
      leb_as_ltb q m phys_start ((m + 1) * page_size) (λ x. omega arith) (λ x. omega arith) in
    let high : ltb m (q + (last - q)) ≡ ltb (m * page_size) phys_end =
      ltb_as_ltb m (q + (last - q)) (m * page_size) phys_end (λ x. omega arith)
        (λ x. omega arith) in
    simp (end, pages, first, low, high) refl

-- Reserving a range of physical memory that is not empty and ends at least a page below 4 GB marks as
-- used exactly the frames below the total that share a byte with it; every other frame keeps its mark.
pub reserve_phys_range-marks :
    (phys_start phys_end m : ℕ) (s : Frames)
    → phys_start < phys_end
    → phys_end + page_size ≤ 2 ^ 32
    → frame_test (reserve_phys_range phys_start phys_end s) m ≡ (
        (ltb phys_start ((m + 1) * page_size)
          && ltb (m * page_size) phys_end
          && ltb m s.total_frames)
        || frame_test s m)
unfolding reserve_phys_range
reserve_phys_range-marks phys_start phys_end m s h b =
    let given : leb phys_end phys_start ≡ false = ground arith in
    let start = page_floor phys_start in
    let end = page_floor ((phys_end + page_size + 2 ^ 32 - 1) % 2 ^ 32) in
    simp given (
      reserve_pages-marks ((end - start) / page_size) start m s
      ∙ ap (λ (x : Bool). x || frame_test s m) (met_range phys_start phys_end s.total_frames m h b))
