-- ===== src/Tests/FramesTests.antt =====
-- A memory of 512 frames for src/mm/vmm.c, with frames 256 to 287 free.
use eyn_os.Base.{ℕ, ◌≡◌, ◌+◌, ◌*◌, ◌/◌, refl, if◌then◌else◌, ◌==◌, ltb, leb, ◌&&◌, ◌||◌, arith}
use eyn_os.Frames.Reserve.{reserve_phys_range, reserve_phys_range-marks}
use eyn_os.Frames.Contiguous.{
  FreeRun, find_run, take_run, frame_alloc_contiguous, frame_alloc_contiguous-FreeRun,
}
use eyn_os.Base.Bits.{test_bit}
use eyn_os.Base.Loop.{find_from}
use eyn_os.Frames.{Frames, granted, frame_test, find_free, frame_alloc, frame_free}
use eyn_os.Frames.Alloc.{Taken, frame_alloc-Taken, frame_free-frame_alloc}

abbrev memory : Frames
memory = record {
  bitmap = λ w. if w == 8 then 0 else 0xFFFF_FFFF;
  total_frames = 512;
  free_frames = 32;
  search_hint = 7;
}

abbrev after : Frames
unfolding frame_alloc find_free find_from test_bit
after = (frame_alloc memory).1

granted_memory : frame_alloc memory ≡ (granted 0x10_0000, after)
unfolding frame_alloc find_free find_from test_bit
granted_memory = refl

frame_alloc-Taken_example : Taken memory after 0x10_0000
frame_alloc-Taken_example = frame_alloc-Taken memory after 0x10_0000 (omega arith) granted_memory

frame_free-frame_alloc_example :
    ((m : ℕ) → frame_test (frame_free 0x10_0000 after) m ≡ frame_test memory m)
    × ((frame_free 0x10_0000 after).free_frames ≡ memory.free_frames)
frame_free-frame_alloc_example =
    frame_free-frame_alloc memory after 0x10_0000 (omega arith) (omega arith) granted_memory
      (omega arith)

reserve_phys_range-marks_example :
    frame_test (reserve_phys_range 0x10_0800 0x10_2001 memory) 258 ≡ (
      (ltb 0x10_0800 (259 * 4096) && ltb (258 * 4096) 0x10_2001 && ltb 258 512)
      || frame_test memory 258)
reserve_phys_range-marks_example =
    reserve_phys_range-marks 0x10_0800 0x10_2001 258 memory (omega arith) (omega arith)

-- A run of 16 frames.
abbrev after_run : Frames
unfolding frame_alloc_contiguous find_run take_run test_bit
after_run = (frame_alloc_contiguous 16 memory).1

granted_run : frame_alloc_contiguous 16 memory ≡ (0x10_0000, after_run)
unfolding frame_alloc_contiguous find_run take_run test_bit
granted_run = refl

frame_alloc_contiguous-FreeRun_example :
    FreeRun memory (0x10_0000 / 4096) 16
    × ((m : ℕ)
        → frame_test after_run m
          ≡ ((leb (0x10_0000 / 4096) m && ltb m (0x10_0000 / 4096 + 16)) || frame_test memory m))
    × (after_run.free_frames + 16 ≡ memory.free_frames)
frame_alloc_contiguous-FreeRun_example =
    frame_alloc_contiguous-FreeRun 16 0x10_0000 memory after_run (omega arith) granted_run
      (λ e. omega (arith, e))
