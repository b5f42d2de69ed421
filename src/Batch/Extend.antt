-- ===== src/Batch/Extend.antt =====
-- src/batch.c: what `batch_extend` makes of an ascending block table.
use imr_dedupe.Prelude.{
  ℕ, suc, ◌≤◌, ◌<◌, ◌≡◌, refl, Bool, false, ◌||◌, ◌==◌, List, [], ◌∷◌, arith, fun_ext, ◌∙◌,
}
use imr_dedupe.Disk.{BbEntry, BbHead, BatchTable, Disk}
use imr_dedupe.Batch.{entry, entries, extend_entry, extend_loop, batch_extend}
use imr_dedupe.Batch.Lookup.{lookup, lookup-empty, IsAscending}
use imr_dedupe.Batch.Step.{Extends, add_track, entry-Extends, expected}

-- A list of physical entries on tracks of the disk, strictly ascending from track `b` on.
abbrev pub IsBatch : Disk → ℕ → List BbEntry → Type 0
IsBatch d b [] = Unit {0}
IsBatch d b (e ∷ l) =
    (b ≤ e.pba)
    × (e.pba < d.report.max_track_num)
    × (e.is_virtual ≡ false)
    × IsBatch d (suc e.pba) l

-- Whether the list has an entry for the track.
abbrev pub tracks : List BbEntry → ℕ → Bool
tracks [] t = false
tracks (e ∷ l) t = e.pba == t || tracks l t

abbrev all_tracks : (ℕ → Bool) → List BbEntry → ℕ → Bool
all_tracks written [] = written
all_tracks written (e ∷ l) = all_tracks (add_track written e.pba) l

all_tracks_lem :
    (written : ℕ → Bool) (l : List BbEntry) (t : ℕ)
    → all_tracks written l t ≡ written t || tracks l t
all_tracks_lem written [] t = ground arith
all_tracks_lem written (e ∷ l) t = ground (arith, all_tracks_lem (add_track written e.pba) l t)

entry_eta : (e : BbEntry) → e.is_virtual ≡ false → e ≡ entry e.pba false
entry_eta e p = ground arith

loop-Extends :
    (d : Disk) (written : ℕ → Bool) (b : ℕ) (h : BbHead) (l : List BbEntry)
    → Extends d written b h
    → IsBatch d b l
    → (b' : ℕ) × Extends d (all_tracks written l) b' (extend_loop d l h)
unfolding extend_loop
loop-Extends d written b h [] x batch = (b, x)
loop-Extends d written b h (e ∷ l) x (after, inside, physical, rest) = rw (entry_eta e physical) (
    loop-Extends d (add_track written e.pba) (suc e.pba) (extend_entry d (entry e.pba false) h) l
      (entry-Extends d written b e.pba h x after inside) rest)

-- `batch_extend`, from a block table with strictly ascending physical tracks of the disk and an
-- empty extended table, gives a table in strictly ascending order that holds each track of the
-- block table as physical, each other top track that is in use beside one of them as virtual, and
-- no other track; it leaves the block table.
pub batch_extend-lookup :
    (d : Disk) (t : BatchTable)
    → IsBatch d 0 (entries t.block_head)
    → t.extend_head.size ≡ 0
    → let h = (batch_extend d t).extend_head in
      ((track : ℕ) → lookup h track ≡ expected d (tracks (entries t.block_head)) track)
      × IsAscending h
      × ((batch_extend d t).block_head ≡ t.block_head)
unfolding batch_extend
batch_extend-lookup d t batch empty =
    let (b, x) = loop-Extends d (λ _. false) 0 t.extend_head (entries t.block_head) start batch in
    (
      λ track.
          rw (x.looks track, fun_ext (all_tracks_lem (λ _. false) (entries t.block_head))) refl,
      x.ascending,
      refl,
    )
  where
    start : Extends d (λ _. false) 0 t.extend_head
    start = record {
      bound = λ track e. cc;
      looks = λ track. lookup-empty t.extend_head track empty ∙ ground arith;
      ascending = λ i l. absurd (omega arith);
      under = λ i l. absurd (omega arith);
    }
