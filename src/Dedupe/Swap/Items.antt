-- ===== src/Dedupe/Swap/Items.antt =====
-- src/active_swap.c (block_info_swap): two blocks change places, and their items in the hash table.
use imr_dedupe.Prelude.{
  ℕ, ◌<◌, ◌≡◌, ◌≢◌, refl, Option, sym, ap, ◌∙◌, true, false, [], none, ◌==◌, update, update_self,
  update_ne, length, Returns, returns_bind, returns_map, subst, arith, Bool-cases, inl, inr,
}
use imr_dedupe.Disk.{Hash, Block, DataItem, Disk}
use imr_dedupe.HashTable.{has_hash, insert_stop, delete_item}
use imr_dedupe.HashTable.Laws.{IsRoomy, IsReachable}
use imr_dedupe.HashTable.Updates.{Inserted, Deleted, insert-Inserted, delete_item-Deleted}
use imr_dedupe.Dedupe.Swap.{swap_blocks, block_info_swap}

-- The items can be reached, and a cell is NULL.
record HasCell (d : Disk) (c : ℕ) : Type 0 where
  reachable : IsReachable d.hash_table d.report.max_track_num
  inside : c < d.report.max_track_num
  empty : d.hash_table c ≡ none

-- Only the hash table changes.
pub record SameBut (d d' : Disk) : Type 0 where
  pub storage : d'.storage ≡ d.storage
  pub ltp : d'.ltp ≡ d.ltp
  pub report : d'.report ≡ d.report

delete-null :
    (d : Disk) (hash : Hash) (r : Option DataItem × Disk) (c : ℕ)
    → Deleted d hash r
    → d.hash_table c ≡ none
    → r.1.hash_table c ≡ none
delete-null d hash r c del empty = elim del.cell [
  | inr (nothing, nowhere, same) ↦ same c ∙ empty
  | inl (i, inside, h, item, e) ↦ elim (Bool-cases (i == c)) [
    | inl at ↦
        let at' : i ≡ c = ground arith in
        let h' : has_hash hash none ≡ true = rw (at', empty) at h in cc
    | inr other ↦ rw e (update_ne d.hash_table i c _ other ∙ empty)
  ]
]

delete_item-IsRoomy :
    (d : Disk) (hash : Hash)
    → hash ≢ []
    → IsRoomy d
    → Returns (delete_item d hash) (λ r. SameBut d r.1 × IsRoomy r.1)
delete_item-IsRoomy d hash real room =
    let (r, runs, del) =
      delete_item-Deleted d hash room.a room.reachable real room.inside_a room.empty_a in
    let report : r.1.report ≡ d.report = ap (λ (x : Disk). x.report) del.rest in
    (
      r,
      runs,
      (
        record {
          storage = ap (λ (x : Disk). x.storage) del.rest;
          ltp = ap (λ (x : Disk). x.ltp) del.rest;
          report = report;
        },
        record {
          a = room.a;
          b = room.b;
          reachable = rw report del.reachable;
          inside_a = rw report room.inside_a;
          inside_b = rw report room.inside_b;
          empty_a = delete-null d hash r room.a del room.empty_a;
          empty_b = delete-null d hash r room.b del room.empty_b;
          apart = room.apart;
        },
      ),
    )

null_room : (d : Disk) (c : ℕ) → d.hash_table c ≡ none → insert_stop d.hash_table c ≡ true
unfolding insert_stop
null_room d c empty = rw empty refl

-- An insertion leaves one of two NULL cells as it is.
insert-room :
    (d d' : Disk) (hash : Hash) (pba : ℕ)
    → IsRoomy d
    → Inserted d hash pba d'
    → SameBut d d' × ((c : ℕ) × HasCell d' c)
insert-room d d' hash pba room i =
    let report : d'.report ≡ d.report = ap (λ (x : Disk). x.report) i.result in
    let table = ap (λ (x : Disk). x.hash_table) i.result in
    (
      record {
        storage = ap (λ (x : Disk). x.storage) i.result;
        ltp = ap (λ (x : Disk). x.ltp) i.result;
        report = report;
      },
      elim (Bool-cases (i.at == room.a)) [
        | inr other ↦ (
          room.a,
          record {
            reachable = rw report i.reachable;
            inside = rw report room.inside_a;
            empty = rw table (update_ne d.hash_table i.at room.a _ other ∙ room.empty_a);
          },
        )
        | inl same ↦
            let apart = room.apart in
            let other : (i.at == room.b) ≡ false = ground arith in
            (
              room.b,
              record {
                reachable = rw report i.reachable;
                inside = rw report room.inside_b;
                empty = rw table (update_ne d.hash_table i.at room.b _ other ∙ room.empty_b);
              },
            )
      ],
    )

-- Moving blocks leaves the hash table alone.
swap_blocks-IsRoomy : (d : Disk) (from to : ℕ) → IsRoomy d → IsRoomy (swap_blocks d from to)
swap_blocks-IsRoomy d from to room = record {
  a = room.a;
  b = room.b;
  reachable = room.reachable;
  inside_a = room.inside_a;
  inside_b = room.inside_b;
  empty_a = room.empty_a;
  empty_b = room.empty_b;
  apart = room.apart;
}

-- The two blocks whose items are moved have a hash that an item takes.
pub record IsHashed (d : Disk) (pba : ℕ) : Type 0 where
  pub real : (d.storage pba).hash ≢ []
  pub short : length (d.storage pba).hash < 20

-- The disk has the blocks of another where two have changed places, its mapping and its report.
pub record BlocksSwapped (d : Disk) (from to : ℕ) (d' : Disk) : Type 0 where
  pub storage : d'.storage ≡ (swap_blocks d from to).storage
  pub ltp : d'.ltp ≡ d.ltp
  pub report : d'.report ≡ d.report

-- After the swap both places hold a hash that fits.
swapped-short :
    (d : Disk) (from to : ℕ)
    → IsHashed d from
    → IsHashed d to
    → length ((swap_blocks d from to).storage from).hash < 20
      × length ((swap_blocks d from to).storage to).hash < 20
swapped-short d from to f t =
    let store = update d.storage to (d.storage from) in
    (
      rw (update_self store from (d.storage to)) t.short,
      elim (Bool-cases (from == to)) [
        | inl same ↦
            let at : to ≡ from = ground arith in
            rw (at, update_self (update d.storage from (d.storage from)) from (d.storage from))
              f.short
        | inr other ↦
            rw
              (
                update_ne store from to (d.storage to) other,
                update_self d.storage to (d.storage from),
              )
              f.short
      ],
    )

-- If the items of the hash table can be reached and two of its cells are NULL, and the hashes of both
-- blocks are not empty and have at most 19 characters, then the swap of the two blocks returns a disk
-- where they have changed places, and the other blocks, the mapping and the report are as they were.
pub block_info_swap-BlocksSwapped :
    (d : Disk) (from to : ℕ)
    → IsRoomy d
    → IsHashed d from
    → IsHashed d to
    → Returns (block_info_swap d from to) (BlocksSwapped d from to)
unfolding block_info_swap
block_info_swap-BlocksSwapped d from to room f t =
    returns_bind _ (delete_item-IsRoomy d (d.storage from).hash f.real room) (λ r (s, room₁).
      let real : (r.1.storage to).hash ≢ [] = rw s.storage t.real in
      returns_bind _ (delete_item-IsRoomy r.1 (r.1.storage to).hash real room₁) (λ r₂ (s₂, room₂).
        let d₃ = swap_blocks r₂.1 from to in
        let same : d₃.storage ≡ (swap_blocks d from to).storage = rw (s₂.storage, s.storage) refl in
        let room₃ = swap_blocks-IsRoomy r₂.1 from to room₂ in
        let short = swapped-short d from to f t in
        let first : length (d₃.storage from).hash < 20 =
          subst (λ (g : ℕ → Block). length (g from).hash < 20) (sym same) short.0 in
        let stop₃ = null_room d₃ room₃.a room₃.empty_a in
        returns_bind _
          (insert-Inserted d₃ (d₃.storage from).hash from room₃.a room₃.reachable first
            room₃.inside_a stop₃)
          (λ d₄ i.
            let (s₄, (c, cell)) = insert-room d₃ d₄ (d₃.storage from).hash from room₃ i in
            let second : length (d₄.storage to).hash < 20 =
              subst (λ (g : ℕ → Block). length (g to).hash < 20) (sym (s₄.storage ∙ same))
                short.1 in
            let stop₄ = null_room d₄ c cell.empty in
            returns_map
              (λ d₅ j. record {
                storage = ap (λ (x : Disk). x.storage) j.result ∙ s₄.storage ∙ same;
                ltp = ap (λ (x : Disk). x.ltp) j.result ∙ s₄.ltp ∙ s₂.ltp ∙ s.ltp;
                report = ap (λ (x : Disk). x.report) j.result ∙ s₄.report ∙ s₂.report ∙ s.report;
              })
              (insert-Inserted d₄ (d₄.storage to).hash to c cell.reachable second cell.inside
                stop₄))))
