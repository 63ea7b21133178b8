-- ===== src/FsTxn/Refines.antt =====
-- Each drive of src/fs/fs_txn.c holds the log of its own calls.
use native.Mathlib.Numerals.{add-one}
use eyn_os.Base.{
  ℕ, zero, suc, ◌-◌, ◌<◌, ◌≤◌, ◌≡◌, refl, sym, true, false, List, [], ◌∷◌, ◌++◌, inl, inr, length,
  length-append, leb, ltb, ◌==◌, ==_iff, if◌then◌else◌, update, arith, Bool-cases, subst,
  update_self, lt→not-leb,
}
use eyn_os.FsTxn.{
  Entry, Txn, Drives, drive_max, entry_max, blank, begin, commit, close, abort, note, touch,
}
use eyn_os.FsTxn.Log.{
  Op, begins, commits, aborts, touches, step, run, Log, log_step, log_run, calls_of, first, Holds,
}

first-update : (n i : ℕ) (a : ℕ → Entry) (e : Entry) → n ≤ i → first n (update a i e) ≡ first n a
unfolding first
first-update zero i a e h = refl
first-update (suc n) i a e h = ground (arith, first-update n i a e (omega arith))

note-Holds :
    (t : Txn) (l : Log) (e : Entry)
    → Holds t l
    → t.count < entry_max
    → Holds (note e t) (record l { records = l.records ++ e ∷ [] })
unfolding first
note-Holds t l e h hc = record {
  depth = h.depth;
  count = omega (arith, h.count, length-append l.records (e ∷ []));
  records = rw (add-one t.count) (
      rw (
        update_self t.entries t.count e,
        first-update t.count t.count t.entries e (omega arith),
        h.records,
      ));
  room = omega arith;
  rest = λ i hi. ground (arith, h.rest i);
}

empty-Holds :
    Holds (record { depth = 0; count = 0; entries = blank }) (record { depth = 0; records = [] })
unfolding first
empty-Holds = record {
  depth = refl;
  count = refl;
  records = refl;
  room = omega arith;
  rest = λ i h. refl;
}

close-Holds :
    (t : Txn) (l : Log)
    → Holds t l
    → Holds (if t.depth == 0 then t else close t) (log_step commits l)
unfolding log_step
close-Holds t l h = elim (Bool-cases (l.depth == 0)) [
  | inl e ↦ let e' : (t.depth == 0) ≡ true = ground (arith, h.depth) in simp (e', e) h
  | inr e ↦
      let e' : (t.depth == 0) ≡ false = ground (arith, h.depth) in
      elim (Bool-cases (l.depth == 1)) [
        | inl one ↦
            let last : (t.depth - 1 == 0) ≡ true = ground (arith, h.depth) in
            simp (e', e, one, last) empty-Holds
        | inr more ↦
            let last : (t.depth - 1 == 0) ≡ false = ground (arith, h.depth) in
            simp (e', e, more, last)
              (record {
                depth = omega (arith, h.depth);
                count = h.count;
                records = h.records;
                room = h.room;
                rest = h.rest;
              })
      ]
]

touch-Holds :
    (t : Txn) (l : Log) (tag len : ℕ)
    → Holds t l
    → Holds
        (if t.depth == 0
          then t
          else if leb entry_max t.count
          then t
          else note (record { tag = tag; len = len }) t)
        (log_step (touches tag len) l)
unfolding log_step
touch-Holds t l tag len h = elim (Bool-cases (l.depth == 0)) [
  | inl e ↦ let e' : (t.depth == 0) ≡ true = ground (arith, h.depth) in simp (e', e) h
  | inr e ↦
      let e' : (t.depth == 0) ≡ false = ground (arith, h.depth) in
      elim (Bool-cases (leb entry_max t.count)) [
        | inl full ↦
            let no_room : ltb (length l.records) entry_max ≡ false = ground (arith, h.count) in
            simp (e', e, full, no_room) h
        | inr free ↦
            let has_room : ltb (length l.records) entry_max ≡ true = ground (arith, h.count) in
            simp (e', e, free, has_room)
              (note-Holds t l (record { tag = tag; len = len }) h (ground arith))
      ]
]

module _ (drive : ℕ) (g : Drives) (hd : drive < drive_max) where
  commit_here : commit drive g drive ≡ (if (g drive).depth == 0 then g drive else close (g drive))
  unfolding commit
  commit_here = ground arith

  touch_here :
      (tag len : ℕ)
      → touch drive tag len g drive ≡ (
          if (g drive).depth == 0
          then g drive
          else if leb entry_max (g drive).count
          then g drive
          else note (record { tag = tag; len = len }) (g drive))
  unfolding touch
  touch_here tag len = ground arith

  -- One call on a drive is one step of its log.
  step-Holds : (o : Op) (l : Log) → Holds (g drive) l → Holds (step drive o g drive) (log_step o l)
  unfolding step log_step begin abort
  step-Holds begins l h =
      rw (lt→not-leb drive drive_max hd, update_self g drive)
        (record {
          depth = omega (arith, h.depth);
          count = h.count;
          records = h.records;
          room = h.room;
          rest = h.rest;
        })
  step-Holds commits l h = rw commit_here (close-Holds (g drive) l h)
  step-Holds aborts l h = rw (lt→not-leb drive drive_max hd, update_self g drive) empty-Holds
  step-Holds (touches tag len) l h = rw (touch_here tag len) (touch-Holds (g drive) l tag len h)

-- A call on one drive leaves every other alone.
step_other : (d drive : ℕ) (o : Op) (g : Drives) → (d == drive) ≡ false → step d o g drive ≡ g drive
unfolding step begin commit abort touch
step_other d drive begins g ne = ground arith
step_other d drive commits g ne = ground arith
step_other d drive aborts g ne = ground arith
step_other d drive (touches tag len) g ne = ground arith

-- After any calls on all the drives, a drive that held a log holds what its own calls make of it.
pub run-Holds :
    (os : List (ℕ × Op)) (drive : ℕ) (g : Drives) (l : Log)
    → drive < drive_max
    → Holds (g drive) l
    → Holds (run os g drive) (log_run (calls_of drive os) l)
unfolding run log_run calls_of
run-Holds [] drive g l hd h = h
run-Holds ((d, o) ∷ os) drive g l hd h = elim (Bool-cases (d == drive)) [
  | inl e ↦ rw e (
      run-Holds os drive (step d o g) (log_step o l) hd (
        subst (λ k. Holds (step k o g drive) (log_step o l)) (sym ((==_iff d drive).0 e))
          (step-Holds drive g hd o l h)))
  | inr e ↦ rw e (run-Holds os drive (step d o g) l hd (rw (step_other d drive o g e) h))
]
