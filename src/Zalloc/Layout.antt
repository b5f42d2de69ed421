-- ===== src/Zalloc/Layout.antt =====
-- src/lba.c (init_disk): the passes of the allocation share the tracks out.
use imr_dedupe.Prelude.{
  ℕ, ◌+◌, ◌-◌, ◌%◌, ◌^◌, ◌≤◌, ◌<◌, ◌≡◌, refl, Bool, ◌&&◌, ◌==◌, leb, if◌then◌else◌, arith,
}
use imr_dedupe.Disk.{ZallocInfo}
use imr_dedupe.Zalloc.{phase3_first, init_zinfo}

-- The tracks that a pass meets, which takes every second or every fourth track between its ends.
abbrev pub in_phase1 : ZallocInfo → ℕ → Bool
in_phase1 z t = leb z.phase1_start t && leb t z.phase1_end && ((t - z.phase1_start) % 2 == 0)

abbrev pub in_phase2 : ZallocInfo → ℕ → Bool
in_phase2 z t = leb z.phase2_end t && leb t z.phase2_start && ((z.phase2_start - t) % 4 == 0)

abbrev pub in_phase3 : ZallocInfo → ℕ → Bool
in_phase3 z t = leb z.phase3_start t && leb t z.phase3_end && ((t - z.phase3_start) % 4 == 0)

abbrev pub one : Bool → ℕ
one b = if b then 1 else 0

-- What the arithmetic of the layout comes to.
pub record IsLayout (n : ℕ) (z : ZallocInfo) : Type 0 where
  pub start1 : z.phase1_start ≡ 0
  bottom1 : z.phase1_end % 2 ≡ 0
  pub last1 : z.phase1_end + 1 ≤ n
  past1 : n ≤ z.phase1_end + 2
  top2 : z.phase2_start % 2 ≡ 1
  last2 : z.phase2_start + 1 ≤ n
  past2 : n ≤ z.phase2_start + 2
  end2 : z.phase2_end ≡ z.phase2_start % 4
  start3 : z.phase3_start + z.phase2_end ≡ 4
  last3 : z.phase3_end + 1 ≤ n
  past3 : n ≤ z.phase3_end + 4
  end3 : z.phase3_end % 4 ≡ z.phase3_start

pub init_zinfo-IsLayout : (n : ℕ) → 4 ≤ n → n < 2 ^ 64 → IsLayout n (init_zinfo n)
unfolding init_zinfo phase3_first
init_zinfo-IsLayout n big small = record {
  start1 = refl;
  bottom1 = ground arith;
  last1 = ground arith;
  past1 = ground arith;
  top2 = ground arith;
  last2 = ground arith;
  past2 = ground arith;
  end2 = ground arith;
  start3 = ground arith;
  last3 = ground arith;
  past3 = ground arith;
  end3 = ground arith;
}

module _ {n : ℕ} {z : ZallocInfo} (l : IsLayout n z) (t : ℕ) where
  pass1 : in_phase1 z t ≡ leb (t + 1) n && (t % 2 == 0)
  pass1 =
      let a = l.start1 in
      let b = l.bottom1 in let c = l.last1 in let e = l.past1 in rw a (ground arith)

  pass2 : in_phase2 z t ≡ leb (t + 1) n && (t % 4 == z.phase2_end)
  pass2 = let a = l.top2 in let b = l.last2 in let c = l.past2 in let e = l.end2 in ground arith

  pass3 : in_phase3 z t ≡ leb (t + 1) n && (t % 4 == z.phase3_start)
  pass3 = let a = l.last3 in let b = l.past3 in let c = l.end3 in let e = l.start3 in ground arith

-- On a disk of at least four tracks, every track of the disk belongs to exactly one of the first
-- three passes, and no other track belongs to any; the second pass ends where it reaches
-- `phase2_end`, a whole number of steps below its start.
pub init_zinfo-partition :
    (n t : ℕ)
    → 4 ≤ n
    → n < 2 ^ 64
    → let z = init_zinfo n in
      (one (in_phase1 z t) + one (in_phase2 z t) + one (in_phase3 z t)
        ≡ (if leb (t + 1) n then 1 else 0))
      × ((z.phase2_start - z.phase2_end) % 4 ≡ 0)
      × (z.phase2_end ≤ z.phase2_start)
init_zinfo-partition n t big small =
    let l = init_zinfo-IsLayout n big small in
    let a = l.start3 in
    let b = l.end2 in
    let c = l.top2 in
    (rw (pass1 l t, pass2 l t, pass3 l t) (ground arith), omega arith, omega arith)
