-- ===== src/Dedupe/Swap/Content.antt =====
-- src/active_swap.c (ltp_table_swap, create_block_swap): the logical blocks follow the two blocks that
-- change places.
use imr_dedupe.Prelude.{
  ℕ, ◌<◌, ◌≡◌, ◌≢◌, refl, sym, ap, ◌∙◌, true, false, ◌==◌, if◌then◌else◌, update, update_self,
  update_ne, Returns, returns_bind, returns_map, ◌>>=◌, arith, Bool-cases, inl, inr,
}
use imr_dedupe.Disk.{Block, LtpEntry, Disk}
use imr_dedupe.Dedupe.{lba_to_pba}
use imr_dedupe.Dedupe.Release.{member, owners, IsOwned}
use imr_dedupe.Dedupe.Trim.Consistent.{IsConsistent}
use imr_dedupe.Dedupe.Swap.{ltp_table_swap, swap_blocks, block_info_swap}
use imr_dedupe.HashTable.Laws.{IsRoomy}
use imr_dedupe.Dedupe.Swap.Items.{IsHashed, BlocksSwapped, block_info_swap-BlocksSwapped}
use imr_dedupe.Dedupe.Swap.Owners.{remap, IsHeld, OwnersSwapped, ltp_table_swap-OwnersSwapped}

-- Where the swap of two different blocks puts a block: the other one at each of the two places.
module _ (d d' : Disk) (from to : ℕ) (apart : from ≢ to)
    (e : d'.storage ≡ (swap_blocks d to from).storage) where
  at_from : d'.storage from ≡ d.storage to
  at_from =
      let other : (to == from) ≡ false = ground arith in
      ap (λ (g : ℕ → Block). g from) e
      ∙ update_ne (update d.storage from (d.storage to)) to from (d.storage from) other
      ∙ update_self d.storage from (d.storage to)

  at_to : d'.storage to ≡ d.storage from
  at_to =
      ap (λ (g : ℕ → Block). g to) e
      ∙ update_self (update d.storage from (d.storage to)) to (d.storage from)

  at_other : (p : ℕ) → p ≢ from → p ≢ to → d'.storage p ≡ d.storage p
  at_other p nf nt =
      let other : (to == p) ≡ false = ground arith in
      let other' : (from == p) ≡ false = ground arith in
      ap (λ (g : ℕ → Block). g p) e
      ∙ update_ne (update d.storage from (d.storage to)) to p (d.storage from) other
      ∙ update_ne d.storage from p (d.storage to) other'

-- What a logical block reads after the swap is what it read before.
record Follows (d d' : Disk) (x : ℕ) : Type 0 where
  content : d'.storage (d'.ltp x).pba ≡ d.storage (d.ltp x).pba
  on_disk : (d'.ltp x).pba < d.report.max_block_num
  valid : (d'.ltp x).valid ≡ (d.ltp x).valid

module _ (d d₁ d₂ : Disk) (from to : ℕ) (apart : from ≢ to) (f : IsHeld d from) (t : IsHeld d to)
    (o : OwnersSwapped d from to d₁) (s : BlocksSwapped d₁ to from d₂) where
  entry :
      (x : ℕ)
      → d₂.ltp x ≡ (
          if member x (owners (d.storage to))
          then remap from (d.ltp x)
          else if member x (owners (d.storage from))
          then remap to (d.ltp x)
          else d.ltp x)
  entry x = ap (λ (g : ℕ → LtpEntry). g x) s.ltp ∙ o.ltp x

  entry_valid : (x : ℕ) → (d₂.ltp x).valid ≡ (d.ltp x).valid
  entry_valid x =
      ap (λ (e : LtpEntry). e.valid) (entry x)
      ∙ elim (Bool-cases (member x (owners (d.storage to)))) [
        | inl m ↦ rw m refl
        | inr m ↦ rw m (elim (Bool-cases (member x (owners (d.storage from)))) [
          | inl k ↦ rw k refl
          | inr k ↦ rw k refl
        ])
      ]

  follows : (x : ℕ) → IsOwned d (d.ltp x).pba x → Follows d d₂ x
  follows x own = elim (Bool-cases (member x (owners (d.storage to)))) [
    | inl m ↦
        let e : d₂.ltp x ≡ remap from (d.ltp x) = rw m at (entry x) in
        let (below, at) = t.mapped x m in
        record {
          content =
              rw (e, at)
                (at_from d₁ d₂ from to apart s.storage ∙ ap (λ (g : ℕ → Block). g to) o.storage);
          on_disk = rw e f.on_disk;
          valid = entry_valid x;
        }
    | inr m ↦ elim (Bool-cases (member x (owners (d.storage from)))) [
      | inl k ↦
          let e : d₂.ltp x ≡ remap to (d.ltp x) = rw (m, k) at (entry x) in
          let (below, at) = f.mapped x k in
          record {
            content =
                rw (e, at)
                  (at_to d₁ d₂ from to apart s.storage ∙ ap (λ (g : ℕ → Block). g from) o.storage);
            on_disk = rw e t.on_disk;
            valid = entry_valid x;
          }
      | inr k ↦
          let e : d₂.ltp x ≡ d.ltp x = rw (m, k) at (entry x) in
          let p = (d.ltp x).pba in
          let not_from : p ≢ from = λ h. let own' = rw h at own.owner in cc in
          let not_to : p ≢ to = λ h. let own' = rw h at own.owner in cc in
          record {
            content = rw e (
                at_other d₁ d₂ from to apart s.storage p not_from not_to
                ∙ ap (λ (g : ℕ → Block). g p) o.storage);
            on_disk = rw e own.on_disk;
            valid = entry_valid x;
          }
    ]
  ]

-- If every valid entry of the mapping leads to a block in use of which its logical block is an owner,
-- all owners of two different blocks are mapped to them, both blocks have a hash that is neither empty
-- nor longer than its field, and the hash table is sound and has two NULL cells, then the exchange of
-- the two blocks, of the mapping first and then of the blocks and their items, returns a disk where
-- each mapped logical block reads the very block that it read before, and the entries still lead to
-- owned blocks.
pub ltp_table_swap-content :
    (d : Disk) (from to : ℕ)
    → from ≢ to
    → IsConsistent d
    → IsHeld d from
    → IsHeld d to
    → IsRoomy d
    → IsHashed d from
    → IsHashed d to
    → Returns (ltp_table_swap d from to >>= λ d₁. block_info_swap d₁ to from) (λ d₂.
      IsConsistent d₂
      × ((x : ℕ)
          → x < d.report.max_logical_block_num
          → (d.ltp x).valid ≡ true
          → d₂.storage (lba_to_pba d₂ x) ≡ d.storage (lba_to_pba d x)))
unfolding lba_to_pba
ltp_table_swap-content d from to apart c f t room hf ht =
    returns_bind _ (ltp_table_swap-OwnersSwapped d from to f t) (λ d₁ o.
      returns_map
        (λ d₂ s.
          let report : d₂.report ≡ d.report = s.report ∙ o.report in
          (
            record { owned = λ x below valid. kept d₁ o d₂ s x (rw report at below) valid },
            λ x below valid.
                (follows d d₁ d₂ from to apart f t o s x (c.owned x below valid)).content,
          ))
        (block_info_swap-BlocksSwapped d₁ to from (roomy d₁ o) (hashed d₁ o to ht)
          (hashed d₁ o from hf)))
  where
    roomy : (d₁ : Disk) → OwnersSwapped d from to d₁ → IsRoomy d₁
    roomy d₁ o = record {
      a = room.a;
      b = room.b;
      reachable = rw (o.table, o.report) room.reachable;
      inside_a = rw o.report room.inside_a;
      inside_b = rw o.report room.inside_b;
      empty_a = rw o.table room.empty_a;
      empty_b = rw o.table room.empty_b;
      apart = room.apart;
    }

    hashed : (d₁ : Disk) → OwnersSwapped d from to d₁ → (p : ℕ) → IsHashed d p → IsHashed d₁ p
    hashed d₁ o p h = record { real = rw o.storage h.real; short = rw o.storage h.short }

    kept :
        (d₁ : Disk)
        → (o : OwnersSwapped d from to d₁) → (d₂ : Disk) → (s : BlocksSwapped d₁ to from d₂)
        → (x : ℕ) → x < d.report.max_logical_block_num
        → (d₂.ltp x).valid ≡ true
        → IsOwned d₂ (d₂.ltp x).pba x
    kept d₁ o d₂ s x below valid =
        let own = c.owned x below (sym (entry_valid d d₁ d₂ from to apart f t o s x) ∙ valid) in
        let w = follows d d₁ d₂ from to apart f t o s x own in
        let report : d₂.report ≡ d.report = s.report ∙ o.report in
        record {
          on_disk = rw report w.on_disk;
          used = rw w.content own.used;
          small = own.small;
          room = rw w.content own.room;
          few = rw w.content own.few;
          owner = rw w.content own.owner;
        }
