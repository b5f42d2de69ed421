-- ===== src/Batch/Lookup.antt =====
-- src/batch.c: what a table holds of a track.
use imr_dedupe.Prelude.{
  ℕ, zero, suc, ◌-◌, ◌<◌, ◌≡◌, refl, Bool, true, false, Option, none, some, ◌==◌, if◌then◌else◌,
  update, arith, ltb, ap, sym, ◌&&◌, ◌∙◌, is_some, Bool-cases, inl, inr,
}
use imr_dedupe.Disk.{BbEntry, BbHead}
use imr_dedupe.Batch.{
  entry, bb_table_add, bb_table_get_last_pba, bb_table_modify_last_to_physical, is_last,
}

-- Whether the latest entry of the track is virtual, among the first `n`.
abbrev pub lookup_upto : (ℕ → BbEntry) → ℕ → ℕ → Option Bool
lookup_upto table zero t = none
lookup_upto table (suc n) t =
    if (table n).pba == t then some (table n).is_virtual else lookup_upto table n t

unfoldable pub lookup : BbHead → ℕ → Option Bool
lookup h = lookup_upto h.table h.size

-- The entries are in strictly ascending order of their tracks.
abbrev pub IsAscending : BbHead → Type 0
IsAscending h = (i : ℕ) → suc i < h.size → (h.table i).pba < (h.table (suc i)).pba

-- Every entry lies below the track.
abbrev pub IsUnder : BbHead → ℕ → Type 0
IsUnder h b = (i : ℕ) → i < h.size → (h.table i).pba < b

lookup_upto_congr :
    (f g : ℕ → BbEntry) (n t : ℕ)
    → ((i : ℕ) → i < n → f i ≡ g i)
    → lookup_upto f n t ≡ lookup_upto g n t
lookup_upto_congr f g zero t h = refl
lookup_upto_congr f g (suc n) t h =
    ground (arith, h n, lookup_upto_congr f g n t (λ i l. h i (omega arith)))

lookup_upto-none :
    (f : ℕ → BbEntry) (n t : ℕ) → ((i : ℕ) → i < n → (f i).pba < t) → lookup_upto f n t ≡ none
lookup_upto-none f zero t h = refl
lookup_upto-none f (suc n) t h =
    ground (arith, h n, lookup_upto-none f n t (λ i l. h i (omega arith)))

lookup_upto_some : (f : ℕ → BbEntry) (n i : ℕ) → i < n → is_some (lookup_upto f n (f i).pba) ≡ true
lookup_upto_some f zero i h = absurd (omega arith)
lookup_upto_some f (suc n) i h =
    ground (arith, lookup_upto_some f n i, ap (λ (k : ℕ). (f k).pba) {x = i} {y = n})

-- A table that holds nothing of the topmost track lies below it.
pub IsUnder-lookup : (h : BbHead) (t : ℕ) → IsUnder h (suc t) → lookup h t ≡ none → IsUnder h t
unfolding lookup
IsUnder-lookup h t u e i l =
    let top = u i l in
    let seen = lookup_upto_some h.table h.size i l in
    elim (Bool-cases ((h.table i).pba == t)) [
      | inl p ↦
          let p' : (h.table i).pba ≡ t = ground arith in
          let seen' = rw p' at seen in cc (sym seen' ∙ ap is_some e)
      | inr p ↦ ground arith
    ]

pub lookup-empty : (h : BbHead) (t : ℕ) → h.size ≡ 0 → lookup h t ≡ none
unfolding lookup
lookup-empty h t e = rw e refl

pub add_table :
    (h : BbHead) (p : ℕ) (v : Bool) → (bb_table_add h p v).table ≡ update h.table h.size (entry p v)
unfolding bb_table_add
add_table h p v = ground arith

pub add_size : (h : BbHead) (p : ℕ) (v : Bool) → (bb_table_add h p v).size ≡ suc h.size
unfolding bb_table_add
add_size h p v = ground arith

pub lookup-add :
    (h : BbHead) (p : ℕ) (v : Bool) (t : ℕ)
    → lookup (bb_table_add h p v) t ≡ (if p == t then some v else lookup h t)
unfolding lookup
lookup-add h p v t =
    let f = update h.table h.size (entry p v) in
    rw (add_table, add_size)
      (ground (arith, lookup_upto_congr f h.table h.size t (λ i l. ground arith)))

pub add-IsUnder :
    (h : BbHead) (p b : ℕ) (v : Bool) → IsUnder h b → p < b → IsUnder (bb_table_add h p v) b
add-IsUnder h p b v u l i = rw (add_table, add_size) (λ li. ground (arith, u i))

pub add-IsAscending :
    (h : BbHead) (p : ℕ) (v : Bool) → IsAscending h → IsUnder h p → IsAscending (bb_table_add h p v)
add-IsAscending h p v a u i = rw (add_table, add_size) (λ li. ground (arith, u i, a i))

last_lem : (h : BbHead) (t : ℕ) → is_last h t ≡ (ltb 0 h.size && (h.table (h.size - 1)).pba == t)
unfolding is_last bb_table_get_last_pba
last_lem h t = ground arith

below_last :
    (f : ℕ → BbEntry) (n : ℕ)
    → ((i : ℕ) → suc i < suc n → (f i).pba < (f (suc i)).pba)
    → (i : ℕ) → i < n
    → (f i).pba < (f n).pba
below_last f zero a i h = absurd (omega arith)
below_last f (suc n) a i h = elim (Bool-cases (i == n)) [
  | inl e ↦ let e' : i ≡ n = ground arith in rw e' (a n (omega arith))
  | inr e ↦
      let l = below_last f n (λ j h'. a j (omega arith)) i (ground arith) in
      let m = a n (omega arith) in omega arith
]

-- In an ascending table with nothing above the track, the last entry is the track's if any is.
pub last-lookup :
    (h : BbHead) (t : ℕ) → IsAscending h → IsUnder h (suc t) → is_last h t ≡ is_some (lookup h t)
unfolding lookup
last-lookup h t a u = last_lem h t ∙ go h.size refl
  where
    go :
        (n : ℕ)
        → h.size ≡ n
        → (ltb 0 h.size && (h.table (h.size - 1)).pba == t) ≡ is_some (lookup h t)
    go zero e = rw e refl
    go (suc n) e =
        let e' : suc n - 1 ≡ n = omega arith in
        let low = below_last h.table n (λ i l. a i (omega arith)) in
        let top = u n (omega arith) in
        rw (e, e')
          (elim (Bool-cases ((h.table n).pba == t)) [
            | inl p ↦ ground arith
            | inr p ↦
                rw (lookup_upto-none h.table n t (λ i l. let q = low i l in ground arith))
                  (ground arith)
          ])

pub modify_size : (h : BbHead) → (bb_table_modify_last_to_physical h).size ≡ h.size
unfolding bb_table_modify_last_to_physical
modify_size h = ground arith

pub modify_pba :
    (h : BbHead) (i : ℕ) → ((bb_table_modify_last_to_physical h).table i).pba ≡ (h.table i).pba
unfolding bb_table_modify_last_to_physical
modify_pba h i = ground arith

pub modify-IsAscending :
    (h : BbHead) → IsAscending h → IsAscending (bb_table_modify_last_to_physical h)
modify-IsAscending h a i = rw (modify_size, modify_pba h i, modify_pba h (suc i)) (a i)

pub modify-IsUnder :
    (h : BbHead) (b : ℕ) → IsUnder h b → IsUnder (bb_table_modify_last_to_physical h) b
modify-IsUnder h b u i = rw (modify_size, modify_pba) (u i)

pub lookup-modify :
    (h : BbHead) (p t : ℕ)
    → is_last h p ≡ true
    → lookup (bb_table_modify_last_to_physical h) t ≡ (if p == t then some false else lookup h t)
unfolding bb_table_modify_last_to_physical lookup
lookup-modify h p t l = go h.size refl
  where
    go :
        (n : ℕ)
        → h.size ≡ n
        → lookup (bb_table_modify_last_to_physical h) t
          ≡ (if p == t then some false else lookup h t)
    go zero e = let q = last_lem h p in ground arith
    go (suc n) e =
        let q = last_lem h p in
        let e' : suc n - 1 ≡ n = omega arith in
        let f = update h.table n (record (h.table n) { is_virtual = false }) in
        ground (arith, lookup_upto_congr f h.table n t (λ i l. ground arith))
