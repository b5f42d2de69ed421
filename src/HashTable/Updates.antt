-- ===== src/HashTable/Updates.antt =====
-- src/hash_table.c: what insertion and deletion do to a table whose items can be reached.
use mathlib.Core.Option.{some-injective}
use imr_dedupe.Prelude.{
  ℕ, ◌<◌, ◌≡◌, ◌≢◌, ◌⊎◌, refl, sym, ap, ◌∙◌, subst, true, false, [], Option, none, some, ◌==◌, ltb,
  update, length, ok, ◌>>=◌, Returns, arith, update_self, update_ne, Bool-cases, inl, inr,
}
use imr_dedupe.Disk.{Hash, DataItem, Disk}
use imr_dedupe.Disk.Compare.{hash_eq_refl}
use imr_dedupe.HashTable.{
  Cells, hash_code, holds, has_hash, is_null, null_cell, search_stop, insert_stop, to_int,
  search_item, insert, dead_item, bury, delete_item,
}
use imr_dedupe.HashTable.Probe.{path, First, probe-Returns, path_injective}
use imr_dedupe.HashTable.Laws.{
  IsReachable, Found, code-lt, null_stops, stop_cases, item_of_held, stop_at_null,
  search_item-Found,
}

abbrev pub item_of : Hash → ℕ → DataItem
item_of hash pba = record { hash = hash; pba = to_int pba }

module _ (cells : Cells) (r p : ℕ) where
  -- No update empties a cell.
  update_full :
      (x : DataItem) → is_null cells p ≡ false → is_null (update cells r (some x)) p ≡ false
  update_full x h = elim (Bool-cases (r == p)) [
    | inl e ↦ let e' : p ≡ r = ground arith in rw (e', update_self cells r (some x)) refl
    | inr e ↦ rw (update_ne cells r p (some x) e) h
  ]

  bury_null : is_null (update cells r (bury (cells r))) p ≡ is_null cells p
  bury_null = elim (Bool-cases (r == p)) [
    | inr e ↦ rw (update_ne cells r p (bury (cells r)) e) refl
    | inl e ↦
        let e' : p ≡ r = ground arith in
        rw (e', update_self cells r (bury (cells r))) (bury_same (cells r))
  ]
    where
      bury_same : (o : Option DataItem) → null_cell (bury o) ≡ null_cell o
      bury_same none = refl
      bury_same (some item) = refl

insert_stop-null : (cells : Cells) (p : ℕ) → insert_stop cells p ≡ false → is_null cells p ≡ false
unfolding insert_stop
insert_stop-null cells p h = ground arith

module _ (cells : Cells) (size : ℕ) (hash : Hash) (pba r n : ℕ)
    (valid : IsReachable cells size) where
  insert-IsReachable :
      r < size
      → n < size
      → First (insert_stop cells) size (hash_code hash size) r n
      → IsReachable (update cells r (some (item_of hash pba))) size
  insert-IsReachable inside few f i item k hi content real hk there j lt =
      elim (Bool-cases (r == i)) [
        | inr e ↦
            update_full cells r _ (item_of hash pba)
              (valid i item k hi (sym (update_ne cells r i _ e) ∙ content) real hk there j lt)
        | inl e ↦
            let e' : r ≡ i = ground arith in
            let same : hash ≡ item.hash =
              let c : Path (Option DataItem) (some (item_of hash pba)) (some item) =
                sym (update_self cells r _) ∙ rw (sym e') at content in
              cc in
            let there' : path size (hash_code hash size) k ≡ path size (hash_code hash size) n =
              ap (λ (h : Hash). path size (hash_code h size) k) same ∙ there ∙ sym e' ∙ sym f.at in
            let k_eq =
              path_injective size (hash_code hash size) k n (code-lt hash size (omega arith)) hk few
                there' in
            let before = insert_stop-null cells _ (f.before j (omega arith)) in
            subst
              (λ (h : Hash).
                is_null (update cells r (some (item_of hash pba))) (path size (hash_code h size) j)
                ≡ false)
              same (update_full cells r _ (item_of hash pba) before)
      ]

-- The disk after an insertion: one cell that was empty or deleted holds the new item, every other
-- cell is as before, and the items can still be reached.
pub record Inserted (d : Disk) (hash : Hash) (pba : ℕ) (d' : Disk) : Type 0 where
  pub at : ℕ
  pub inside : at < d.report.max_track_num
  pub room : insert_stop d.hash_table at ≡ true
  pub result : d' ≡ record d {
    hash_table = update d.hash_table at (some (record { hash = hash; pba = to_int pba }));
  }
  pub reachable : IsReachable d'.hash_table d.report.max_track_num

-- An insertion of a hash of at most 19 characters, into a table whose items can be reached and
-- which has an empty or deleted cell, returns a disk that is `Inserted`.
pub insert-Inserted :
    (d : Disk) (hash : Hash) (pba c : ℕ)
    → IsReachable d.hash_table d.report.max_track_num
    → length hash < 20
    → c < d.report.max_track_num
    → insert_stop d.hash_table c ≡ true
    → Returns (insert d hash pba) (Inserted d hash pba)
unfolding insert
insert-Inserted d hash pba c valid short inside room =
    let cells = d.hash_table in
    let size = d.report.max_track_num in
    let fits : ltb (length hash) 20 ≡ true = ground arith in
    let (r, runs, (n, few, inside', f)) =
      probe-Returns (insert_stop cells) size (hash_code hash size) c
        (code-lt hash size (omega arith)) inside room in
    let cells' = update cells r (some (item_of hash pba)) in
    (
      record d { hash_table = cells' },
      rw (fits, runs) refl,
      record {
        at = r;
        inside = inside';
        room = f.halts;
        result = refl;
        reachable = insert-IsReachable cells size hash pba r n valid inside' few f;
      },
    )

module _ (cells : Cells) (size r : ℕ) (valid : IsReachable cells size) where
  pub delete-IsReachable : IsReachable (update cells r (bury (cells r))) size
  delete-IsReachable i item k hi content real hk there j lt = elim (Bool-cases (r == i)) [
    | inr e ↦
        bury_null cells r _
        ∙ valid i item k hi (sym (update_ne cells r i _ e) ∙ content) real hk there j lt
    | inl e ↦
        let e' : r ≡ i = ground arith in
        absurd (buried (cells r) (sym (update_self cells r _) ∙ rw (sym e') at content) real)
  ]
    where
      buried : (o : Option DataItem) → bury o ≡ some item → item.hash ≢ [] → ⊥
      buried none c nonempty = cc
      buried (some x) c nonempty =
          nonempty (ap (λ (y : DataItem). y.hash) (sym (some-injective dead_item item c)))

-- What a deletion returns: an item with the hash, whose cell alone is now deleted, or NULL and the
-- table as it was, if no cell holds the hash. The items can still be reached.
pub record Deleted (d : Disk) (hash : Hash) (r : Option DataItem × Disk) : Type 0 where
  pub cell :
      ((i : ℕ) × (i < d.report.max_track_num)
        × (holds d.hash_table hash i ≡ true)
        × (r.0 ≡ d.hash_table i)
        × (r.1 ≡ record d { hash_table = update d.hash_table i (some dead_item) }))
      ⊎ ((r.0 ≡ none)
          × ((i : ℕ) → i < d.report.max_track_num → holds d.hash_table hash i ≡ false)
          × ((i : ℕ) → r.1.hash_table i ≡ d.hash_table i))
  pub rest : r.1 ≡ record d { hash_table = r.1.hash_table }
  pub reachable : IsReachable r.1.hash_table d.report.max_track_num

-- A deletion of a hash that is not empty, from a table whose items can be reached and which has a
-- NULL cell, returns what `Deleted` states.
pub delete_item-Deleted :
    (d : Disk) (hash : Hash) (c : ℕ)
    → IsReachable d.hash_table d.report.max_track_num
    → hash ≢ []
    → c < d.report.max_track_num
    → d.hash_table c ≡ none
    → Returns (delete_item d hash) (Deleted d hash)
unfolding delete_item
delete_item-Deleted d hash c valid real inside empty =
    let cells = d.hash_table in
    let size = d.report.max_track_num in
    let (r, runs, (n, few, inside', f)) =
      probe-Returns (search_stop cells hash) size (hash_code hash size) c
        (code-lt hash size (omega arith)) inside (null_stops cells hash c (rw empty refl)) in
    (
      (cells r, record d { hash_table = update cells r (bury (cells r)) }),
      rw runs refl,
      record {
        rest = refl;
        reachable = delete-IsReachable cells size r valid;
        cell = elim (stop_cases cells hash r f.halts) [
          | inl h ↦
              let (item, content, same) = item_of_held cells hash r h in
              inl (r, inside', h, refl, rw content refl)
          | inr e ↦
              inr
                (e, stop_at_null cells hash size valid real r n few f e, λ i. unchanged cells r i e)
        ];
      },
    )
  where
    unchanged :
        (cells : Cells) (r i : ℕ) → cells r ≡ none → update cells r (bury (cells r)) i ≡ cells i
    unchanged cells r i e = elim (Bool-cases (r == i)) [
      | inr ne ↦ update_ne cells r i _ ne
      | inl eq ↦
          let eq' : i ≡ r = ground arith in rw (eq', update_self cells r (bury (cells r)), e) refl
    ]

-- The cells after the item was put in a cell that was empty or deleted.
module _ (cells : Cells) (hash : Hash) (pba at size : ℕ) (inside : at < size) where
  put : Cells
  put = update cells at (some (item_of hash pba))

  put_self : put at ≡ some (item_of hash pba)
  unfolding put
  put_self = update_self cells at _

  only_new :
      (absent : (i : ℕ) → i < size → holds cells hash i ≡ false)
      → (r : Option DataItem) → Found put size hash r
      → r ≡ some (item_of hash pba)
  unfolding put
  only_new absent r (inl (i, hi, e, h)) = elim (Bool-cases (at == i)) [
    | inl same ↦
        let same' : i ≡ at = ground arith in
        e ∙ ap (λ (j : ℕ). put j) same' ∙ update_self cells at _
    | inr other ↦
        let h' : holds cells hash i ≡ true =
          sym (ap (has_hash hash) (update_ne cells at i _ other)) ∙ h in
        let a = absent i hi in cc
  ]
  only_new absent r (inr (e, nowhere)) =
      let here : holds put hash at ≡ true =
        ap (has_hash hash) (update_self cells at (some (item_of hash pba))) ∙ hash_eq_refl hash in
      let gone = nowhere at inside in cc

  still_null :
      (a b : ℕ)
      → cells a ≡ none
      → cells b ≡ none
      → a ≢ b
      → a < size
      → b < size
      → (c : ℕ) × (c < size) × (put c ≡ none)
  unfolding put
  still_null a b na nb ne ha hb = elim (Bool-cases (at == a)) [
    | inr other ↦ (a, ha, update_ne cells at a _ other ∙ na)
    | inl same ↦
        let other : (at == b) ≡ false = ground arith in (b, hb, update_ne cells at b _ other ∙ nb)
  ]

-- A search of any disk with the table that the insertion left.
pub Inserted-found :
    (d d' e : Disk) (hash : Hash) (pba a b : ℕ)
    → Inserted d hash pba d'
    → hash ≢ []
    → ((i : ℕ) → i < d.report.max_track_num → holds d.hash_table hash i ≡ false)
    → a < d.report.max_track_num
    → d.hash_table a ≡ none
    → b < d.report.max_track_num
    → d.hash_table b ≡ none
    → a ≢ b
    → e.hash_table ≡ d'.hash_table
    → e.report.max_track_num ≡ d.report.max_track_num
    → search_item e hash ≡ ok (some (item_of hash pba))
unfolding put
Inserted-found d d' e hash pba a b x real absent ha na hb nb ne table size =
    let cells' = put d.hash_table hash pba x.at d.report.max_track_num x.inside in
    let same : e.hash_table ≡ cells' = table ∙ ap (λ (k : Disk). k.hash_table) x.result in
    let (c, hc, nc) =
      still_null d.hash_table hash pba x.at d.report.max_track_num x.inside a b na nb ne ha hb in
    let (r, found, is_found) =
      search_item-Found e hash c (rw (table, size) x.reachable) real (rw size hc) (rw same nc) in
    found
    ∙ ap (λ (o : Option DataItem). ok o)
        (only_new d.hash_table hash pba x.at d.report.max_track_num x.inside absent r (
          subst (λ (n : ℕ). Found cells' n hash r) size
            (subst (λ (t : Cells). Found t e.report.max_track_num hash r) same is_found)))

pub null_has_room : (cells : Cells) (c : ℕ) → cells c ≡ none → insert_stop cells c ≡ true
unfolding insert_stop
null_has_room cells c e = rw e refl

-- After an insertion of a hash that is not empty and that no cell held, a search for the hash
-- returns the new item, if the hash has at most 19 characters, the items of the table can be reached
-- and the table had two NULL cells.
pub search_item-insert :
    (d : Disk) (hash : Hash) (pba a b : ℕ)
    → IsReachable d.hash_table d.report.max_track_num
    → hash ≢ []
    → length hash < 20
    → ((i : ℕ) → i < d.report.max_track_num → holds d.hash_table hash i ≡ false)
    → a < d.report.max_track_num
    → d.hash_table a ≡ none
    → b < d.report.max_track_num
    → d.hash_table b ≡ none
    → a ≢ b
    → (insert d hash pba >>= λ d'. search_item d' hash)
      ≡ ok (some (record { hash = hash; pba = to_int pba }))
search_item-insert d hash pba a b valid real short absent ha na hb nb ne =
    let room = null_has_room d.hash_table a na in
    let (d', runs, x) = insert-Inserted d hash pba a valid short ha room in
    rw runs (
      Inserted-found d d' d' hash pba a b x real absent ha na hb nb ne refl
        (ap (λ (k : Disk). k.report.max_track_num) x.result))
