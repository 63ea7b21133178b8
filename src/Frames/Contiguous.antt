-- ===== src/Frames/Contiguous.antt =====
-- frame_alloc_contiguous of src/mm/vmm.c: the first run of free frames above the first megabyte.
use eyn_os.Base.{
  ℕ, zero, suc, ◌+◌, ◌*◌, ◌/◌, ◌%◌, ◌-◌, ◌^◌, ◌<◌, ◌≤◌, ◌≡◌, ◌≢◌, ◌∙◌, refl, sym, ap, subst, Bool,
  true, false, ◌&&◌, ◌||◌, leb, ltb, ◌==◌, if◌then◌else◌, arith, inl, inr, ◌⊎◌, Bool-cases, Option,
  none, some,
}
use eyn_os.Frames.{Frames, page_size, frame_set, frame_test}
use eyn_os.Frames.Bit.{frame_test-set}

-- The loop over `left` frames from the `i`-th on: the start of a run of `count` free frames. So far
-- `run_length` frames from `run_start` on are free.
unfoldable pub find_run : (left i run_start run_length count : ℕ) → Frames → Option ℕ
find_run zero i run_start run_length count s = none
find_run (suc left) i run_start run_length count s =
    let start = if run_length == 0 then i else run_start in
    let longer = find_run left (i + 1) start (run_length + 1) count s in
    let broken = find_run left (i + 1) run_start 0 count s in
    if frame_test s i then broken else if run_length + 1 == count then some start else longer

-- `count` frames from the `j`-th on are marked.
unfoldable pub take_run : (count j : ℕ) → Frames → Frames
take_run zero j s = s
take_run (suc count) j s =
    take_run count (j + 1) (record (frame_set j s) { free_frames = s.free_frames - 1 })

abbrev pub grant_run : (count : ℕ) → Option ℕ → Frames → ℕ × Frames
grant_run count none s = (0, s)
grant_run count (some start) s = (start * page_size % 2 ^ 32, take_run count start s)

unfoldable pub frame_alloc_contiguous : ℕ → Frames → ℕ × Frames
frame_alloc_contiguous count s =
    if (count == 0) || ltb s.free_frames count
    then (0, s)
    else grant_run count (find_run (s.total_frames - 256) 256 0 0 count s) s

-- A run of free frames inside the memory.
pub record FreeRun (s : Frames) (start count : ℕ) : Type 0 where
  pub above : 256 ≤ start
  pub inside : start + count ≤ s.total_frames
  pub free : (k : ℕ) → start ≤ k → k < start + count → frame_test s k ≡ false

-- The frames counted so far are a run that ends before `i`.
RunSoFar : Frames → (i run_start run_length : ℕ) → Type 0
RunSoFar s i run_start run_length =
    (run_length ≡ 0)
    ⊎ ((256 ≤ run_start)
        × (run_start + run_length ≡ i)
        × ((k : ℕ) → run_start ≤ k → k < i → frame_test s k ≡ false))

so_far_none : (s : Frames) → RunSoFar s 256 0 0
unfolding RunSoFar
so_far_none s = inl refl

-- One more free frame.
longer-RunSoFar :
    (s : Frames) (i run_start run_length : ℕ)
    → 256 ≤ i
    → frame_test s i ≡ false
    → RunSoFar s i run_start run_length
    → (256 ≤ (if run_length == 0 then i else run_start))
      × ((if run_length == 0 then i else run_start) + (run_length + 1) ≡ i + 1)
      × ((k : ℕ)
          → (if run_length == 0 then i else run_start) ≤ k
          → k < i + 1
          → frame_test s k ≡ false)
unfolding RunSoFar
longer-RunSoFar s i run_start run_length hi free (inl none_yet) =
    let start : (run_length == 0) ≡ true = ground arith in
    rw start
      (hi, omega arith, λ k lo up. let same : k ≡ i = omega arith in ap (frame_test s) same ∙ free)
longer-RunSoFar s i run_start run_length hi free (inr (above, ends, run)) =
    elim (Bool-cases (run_length == 0)) [
      | inl e ↦ rw e (
        hi,
        ground arith,
        λ k lo up. let same : k ≡ i = omega arith in ap (frame_test s) same ∙ free,
      )
      | inr e ↦ rw e (
        above,
        omega arith,
        λ k lo up. elim (Bool-cases (k == i)) [
          | inl same ↦ ap (frame_test s) (ground arith) ∙ free
          | inr other ↦ run k lo (ground arith)
        ],
      )
    ]

value_of : Option ℕ → ℕ
value_of none = 0
value_of (some n) = n

some_value : {a b : ℕ} → some a ≡ some b → a ≡ b
unfolding value_of
some_value e = ap value_of e

find_run-FreeRun :
    (left i run_start run_length count start : ℕ) (s : Frames)
    → 256 ≤ i
    → left ≤ s.total_frames - i
    → RunSoFar s i run_start run_length
    → find_run left i run_start run_length count s ≡ some start
    → FreeRun s start count
unfolding find_run RunSoFar
find_run-FreeRun zero i run_start run_length count start s hi ht run e = absurd (ground arith)
find_run-FreeRun (suc left) i run_start run_length count start s hi ht run e =
    let next = if run_length == 0 then i else run_start in
    elim (Bool-cases (frame_test s i)) [
      | inl used ↦
          find_run-FreeRun left (i + 1) run_start 0 count start s (omega arith) (omega arith)
            (inl refl) (simp used at e)
      | inr free ↦
          let (above, ends, run') = longer-RunSoFar s i run_start run_length hi free run in
          elim (Bool-cases (run_length + 1 == count)) [
            | inl all ↦
                let full : run_length + 1 ≡ count = ground arith in
                let found : some next ≡ some start = simp (free, all) at e in
                let here : next ≡ start = some_value found in
                subst (λ x. FreeRun s x count) here
                  (record {
                    above = above;
                    inside = omega arith;
                    free = λ k lo up. run' k lo (omega arith);
                  })
            | inr more ↦
                find_run-FreeRun left (i + 1) next (run_length + 1) count start s (omega arith)
                  (omega arith) (inr (above, ends, run')) (simp (free, more) at e)
          ]
    ]

-- Whether a frame lies in a run.
abbrev in_run : (j count m : ℕ) → Bool
in_run j count m = leb j m && ltb m (j + count)

in_run_next : (j count m : ℕ) → in_run j (suc count) m ≡ (in_run (j + 1) count m || (j == m))
in_run_next j count m = ground arith

in_run_none : (j m : ℕ) → in_run j 0 m ≡ false
in_run_none j m = ground arith

or_assoc : (a b x : Bool) → (a || (b || x)) ≡ ((a || b) || x)
or_assoc true b x = refl
or_assoc false b x = refl

take_run-marks :
    (count j m : ℕ) (s : Frames)
    → count ≤ s.free_frames
    → (frame_test (take_run count j s) m ≡ (in_run j count m || frame_test s m))
      × ((take_run count j s).free_frames + count ≡ s.free_frames)
unfolding take_run
take_run-marks zero j m s h = (rw (in_run_none j m) refl, omega arith)
take_run-marks (suc count) j m s h =
    let t : Frames = record (frame_set j s) { free_frames = s.free_frames - 1 } in
    let (marks, left) = take_run-marks count (j + 1) m t (omega arith) in
    (
      marks
          ∙ ap (λ (x : Bool). in_run (j + 1) count m || x) (frame_test-set s j m)
          ∙ or_assoc (in_run (j + 1) count m) (j == m) (frame_test s m)
          ∙ ap (λ (x : Bool). x || frame_test s m) (sym (in_run_next j count m)),
      omega arith,
    )

granted-FreeRun :
    (count phys_addr : ℕ) (s t : Frames) (found : Option ℕ)
    → find_run (s.total_frames - 256) 256 0 0 count s ≡ found
    → s.total_frames ≤ 2 ^ 20
    → 0 < count
    → count ≤ s.free_frames
    → phys_addr ≢ 0
    → grant_run count found s ≡ (phys_addr, t)
    → FreeRun s (phys_addr / page_size) count
      × ((m : ℕ) → frame_test t m ≡ (in_run (phys_addr / page_size) count m || frame_test s m))
      × (t.free_frames + count ≡ s.free_frames)
granted-FreeRun count phys_addr s t none found ht hc hf ne e =
    absurd (ne (sym (ap (λ (p : ℕ × Frames). p.0) e)))
granted-FreeRun count phys_addr s t (some start) found ht hc hf ne e =
    let run =
      find_run-FreeRun (s.total_frames - 256) 256 0 0 count start s (omega arith) (omega arith)
        (so_far_none s) found in
    let address : start * page_size % 2 ^ 32 ≡ phys_addr = ap (λ (p : ℕ × Frames). p.0) e in
    let after : take_run count start s ≡ t = ap (λ (p : ℕ × Frames). p.1) e in
    let frame : start ≡ phys_addr / page_size = omega (arith, run.inside) in
    rw (← frame, ← after)
      (run, λ m. (take_run-marks count start m s hf).0, (take_run-marks count start 0 s hf).1)

-- An address that frame_alloc_contiguous grants, of memory of at most 2^20 frames, starts `count` frames
-- that were free, above the first megabyte and inside the memory; those and no others are marked, and
-- they are taken off the count of the free frames.
pub frame_alloc_contiguous-FreeRun :
    (count phys_addr : ℕ) (s t : Frames)
    → s.total_frames ≤ 2 ^ 20
    → frame_alloc_contiguous count s ≡ (phys_addr, t)
    → phys_addr ≢ 0
    → FreeRun s (phys_addr / page_size) count
      × ((m : ℕ)
          → frame_test t m ≡ (
              (leb (phys_addr / page_size) m && ltb m (phys_addr / page_size + count))
              || frame_test s m))
      × (t.free_frames + count ≡ s.free_frames)
unfolding frame_alloc_contiguous
frame_alloc_contiguous-FreeRun count phys_addr s t ht e ne =
    let bad = (count == 0) || ltb s.free_frames count in
    elim (Bool-cases bad) [
      | inl no_way ↦ absurd (ne (sym (ap (λ (p : ℕ × Frames). p.0) (simp no_way at e))))
      | inr ok ↦
          granted-FreeRun count phys_addr s t (find_run (s.total_frames - 256) 256 0 0 count s) refl
            ht (ground arith) (ground arith) ne (simp ok at e)
    ]
