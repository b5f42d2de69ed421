-- ===== src/HashTable/Replace.antt =====
-- src/lba.c (dedupe_lba_write): the item of a block is deleted and one for its new content inserted.
use imr_dedupe.Prelude.{
  ◌∷◌, ℕ, ◌<◌, ◌≡◌, ◌≢◌, refl, sym, ap, ◌∙◌, false, [], Option, none, some, ◌==◌, update, length,
  ok, ◌>>=◌, Returns, returns_bind, returns_map, arith, update_self, update_ne, Bool-cases, inl,
  inr,
}
use imr_dedupe.Disk.{Hash, hash_eq, DataItem, Disk}
use imr_dedupe.HashTable.{
  Cells, hash_code, holds, has_hash, search_stop, search_item, insert, bury, delete_item,
}
use imr_dedupe.HashTable.Probe.{probe-Returns}
use imr_dedupe.HashTable.Laws.{IsReachable, IsRoomy, code-lt, null_stops}
use imr_dedupe.HashTable.Updates.{
  item_of, delete-IsReachable, Inserted, insert-Inserted, Inserted-found, null_has_room,
}

-- No cell but NULL ones has what a deletion leaves of it, and no cell gains a hash.
record Buried (d d' : Disk) : Type 0 where
  at : ℕ
  result : d' ≡ record d { hash_table = update d.hash_table at (bury (d.hash_table at)) }
  reachable : IsReachable d'.hash_table d.report.max_track_num

-- The hash may be empty, as that of a block that was never written is.
delete_item-Buried :
    (d : Disk) (hash : Hash) → IsRoomy d → Returns (delete_item d hash) (λ r. Buried d r.1)
unfolding delete_item
delete_item-Buried d hash room =
    let cells = d.hash_table in
    let size = d.report.max_track_num in
    let inside = room.inside_a in
    let (r, runs, found) =
      probe-Returns (search_stop cells hash) size (hash_code hash size) room.a
        (code-lt hash size (omega arith)) inside
        (null_stops cells hash room.a (rw (room.empty_a) refl)) in
    (
      (cells r, record d { hash_table = update cells r (bury (cells r)) }),
      rw runs refl,
      record { at = r; result = refl; reachable = delete-IsReachable cells size r room.reachable },
    )

module _ (cells : Cells) (r c : ℕ) where
  stays_null : cells c ≡ none → update cells r (bury (cells r)) c ≡ none
  stays_null e = elim (Bool-cases (r == c)) [
    | inr other ↦ update_ne cells r c _ other ∙ e
    | inl same ↦
        let same' : r ≡ c = ground arith in rw (same', update_self cells c (bury (cells c)), e) refl
  ]

  stays_absent :
      (hash : Hash)
      → hash ≢ []
      → holds cells hash c ≡ false
      → holds (update cells r (bury (cells r))) hash c ≡ false
  unfolding hash_eq
  stays_absent hash real h = elim (Bool-cases (r == c)) [
    | inr other ↦ ap (has_hash hash) (update_ne cells r c _ other) ∙ h
    | inl same ↦
        let same' : r ≡ c = ground arith in
        rw (same', update_self cells c (bury (cells c))) (buried (cells c) hash real)
  ]
    where
      buried : (o : Option DataItem) (hash : Hash) → hash ≢ [] → has_hash hash (bury o) ≡ false
      buried none hash real = refl
      buried (some item) [] real = absurd (real refl)
      buried (some item) (c ∷ hash) real = refl

-- The disk once a block has the item of its new content: only the table differs, its items can be
-- reached, and a search for the new hash returns the item.
pub record Replaced (d : Disk) (hash : Hash) (pba : ℕ) (d' : Disk) : Type 0 where
  pub rest : d' ≡ record d { hash_table = d'.hash_table }
  pub found :
      (e : Disk)
      → e.hash_table ≡ d'.hash_table
      → e.report.max_track_num ≡ d.report.max_track_num
      → search_item e hash ≡ ok (some (item_of hash pba))

pub delete_item-insert :
    (d : Disk) (old hash : Hash) (pba : ℕ)
    → IsRoomy d
    → hash ≢ []
    → length hash < 20
    → ((i : ℕ) → i < d.report.max_track_num → holds d.hash_table hash i ≡ false)
    → Returns (delete_item d old >>= λ r. insert r.1 hash pba) (Replaced d hash pba)
delete_item-insert d old hash pba room real short absent =
    returns_bind (λ r. insert r.1 hash pba) (delete_item-Buried d old room) (λ r b. by_table r.1 b)
  where
    put_in : {d₂ : Disk} (d₁ : Disk) → Inserted d₁ hash pba d₂ → Cells
    put_in d₁ x = update d₁.hash_table x.at (some (item_of hash pba))

    by_table : (d₁ : Disk) → Buried d d₁ → Returns (insert d₁ hash pba) (Replaced d hash pba)
    by_table d₁ b =
        let table : d₁.hash_table ≡ update d.hash_table b.at (bury (d.hash_table b.at)) =
          ap (λ (x : Disk). x.hash_table) b.result in
        let report : d₁.report ≡ d.report = ap (λ (x : Disk). x.report) b.result in
        let null_a : d₁.hash_table room.a ≡ none =
          rw table (stays_null d.hash_table b.at room.a room.empty_a) in
        let null_b : d₁.hash_table room.b ≡ none =
          rw table (stays_null d.hash_table b.at room.b room.empty_b) in
        returns_map
          (λ d₂ x. record {
            rest =
                x.result
                ∙ ap (λ (e : Disk). record e { hash_table = put_in d₁ x }) b.result
                ∙ ap (λ (t : Cells). record d { hash_table = t })
                    (sym (ap (λ (e : Disk). e.hash_table) x.result));
            found = λ e te se.
                Inserted-found d₁ d₂ e hash pba room.a room.b x real
                  (λ i lt.
                    rw table
                      (stays_absent d.hash_table b.at i hash real (absent i (rw report at lt))))
                  (rw report room.inside_a) null_a (rw report room.inside_b) null_b room.apart te
                  (rw report se);
          })
          (insert-Inserted d₁ hash pba room.a (rw report b.reachable) short
            (rw report room.inside_a) (null_has_room d₁.hash_table room.a null_a))
