-- ===== src/VirtualGroups/Layout.antt =====
-- src/virtual_groups.c (init_virtual_groups): how the groups divide the tracks.
pub mod Find
use native.Mathlib.Nat.{zero-mul, mod-eq_of_lt, mul-le-mul_right, suc-mul, div-add-mod', mod-lt}
use imr_dedupe.Prelude.{
  ℕ, zero, suc, ◌+◌, ◌-◌, ◌*◌, ◌/◌, ◌%◌, ◌^◌, ◌≤◌, ◌<◌, ◌≡◌, ◌≢◌, refl, sym, ap, ◌∙◌, Bool, true,
  false, ◌&&◌, Option, none, some, ltb, ◌==◌, if◌then◌else◌, update, update_self, update_ne,
  Outcome, ok, ◌>>=◌, Returns, arith, Bool-cases, inl, inr,
}
use imr_dedupe.Disk.{Disk, add64}
use imr_dedupe.Zalloc.{sub64}
use imr_dedupe.VirtualGroups.{
  ListOps, VirtualGroup, Groups, set_group, set_next, group_before, init_vg_element, init_group,
  init_groups, init_heads, init_last_group, init_virtual_groups,
}

record SameBorders (v w : VirtualGroup) : Type 0 where
  lower : v.lower_border ≡ w.lower_border
  higher : v.higher_border ≡ w.higher_border

-- The groups below `k`: where they begin and end, and what follows them.
record AreLaid {Heads : Type 0} (size k : ℕ) (g : Groups Heads) : Type 0 where
  granularity : g.granularity ≡ size
  lower : (i : ℕ) → i < k → (g.vg i).lower_border ≡ i * size
  higher : (i : ℕ) → i < k → (g.vg i).higher_border + 1 ≡ suc i * size
  next : (i : ℕ) → suc i < k → (g.vg i).next ≡ some (suc i)
  head : 0 < k → g.global_vg_list ≡ some 0

-- The layout of all groups, of `max` tracks.
pub record IsLayout {Heads : Type 0} (max : ℕ) (g : Groups Heads) : Type 0 where
  pub some_group : 0 < g.num_of_groups
  pub some_track : 0 < g.granularity
  pub lower : (i : ℕ) → i < g.num_of_groups → (g.vg i).lower_border ≡ i * g.granularity
  pub higher :
      (i : ℕ) → suc i < g.num_of_groups → (g.vg i).higher_border + 1 ≡ suc i * g.granularity
  pub last : (i : ℕ) → suc i ≡ g.num_of_groups → (g.vg i).higher_border + 1 ≡ max
  pub last_filled : (i : ℕ) → suc i ≡ g.num_of_groups → i * g.granularity < max
  pub last_fits : max ≤ g.num_of_groups * g.granularity
  pub next : (i : ℕ) → suc i < g.num_of_groups → (g.vg i).next ≡ some (suc i)
  pub next_last : (i : ℕ) → suc i ≡ g.num_of_groups → (g.vg i).next ≡ none
  pub head : g.global_vg_list ≡ some 0

module _ {Heads : Type 0} (lists : ListOps Heads) where
  set_next-SameBorders :
      (g : Groups Heads) (i j : ℕ) → SameBorders ((set_next g (group_before i) i).vg j) (g.vg j)
  set_next-SameBorders g zero j = record { lower = refl; higher = refl }
  set_next-SameBorders g (suc i) j = elim (Bool-cases (i == j)) [
    | inr other ↦
        let e = update_ne g.vg i j (record (g.vg i) { next = some (suc i) }) other in
        record {
          lower = ap (λ (v : VirtualGroup). v.lower_border) e;
          higher = ap (λ (v : VirtualGroup). v.higher_border) e;
        }
    | inl same ↦
        let same' : j ≡ i = ground arith in
        let e = update_self g.vg i (record (g.vg i) { next = some (suc i) }) in
        record {
          lower = rw same' (ap (λ (v : VirtualGroup). v.lower_border) e);
          higher = rw same' (ap (λ (v : VirtualGroup). v.higher_border) e);
        }
  ]

  set_next-next :
      (g : Groups Heads) (k i : ℕ)
      → i < k
      → ((set_next g (group_before k) k).vg i).next ≡ (if suc i == k then some k else (g.vg i).next)
  set_next-next g zero i lt = absurd (omega arith)
  set_next-next g (suc k) i lt = elim (Bool-cases (k == i)) [
    | inl same ↦
        let same' : i ≡ k = ground arith in
        let here : (suc k == suc k) ≡ true = ground arith in
        rw (same', here)
          (ap (λ (v : VirtualGroup). v.next)
            (update_self g.vg k (record (g.vg k) { next = some (suc k) })))
    | inr other ↦
        let there : (suc i == suc k) ≡ false = ground arith in
        rw there (
          ap (λ (v : VirtualGroup). v.next)
            (update_ne g.vg k i (record (g.vg k) { next = some (suc k) }) other))
  ]

  set_next-granularity :
      (g : Groups Heads) (k : ℕ) → (set_next g (group_before k) k).granularity ≡ g.granularity
  set_next-granularity g zero = refl
  set_next-granularity g (suc k) = refl

  set_next-num :
      (g : Groups Heads) (k : ℕ) → (set_next g (group_before k) k).num_of_groups ≡ g.num_of_groups
  set_next-num g zero = refl
  set_next-num g (suc k) = refl

  set_next-head :
      (g : Groups Heads) (k : ℕ)
      → (0 < k → g.global_vg_list ≡ some 0)
      → (set_next g (group_before k) k).global_vg_list ≡ some 0
  set_next-head g zero h = refl
  set_next-head g (suc k) h = h (omega arith)

  -- What the next group adds to the groups before it.
  record Added (k last : ℕ) (g g' : Groups Heads) : Type 0 where
    granularity : g'.granularity ≡ g.granularity
    num : g'.num_of_groups ≡ g.num_of_groups
    lower : (g'.vg k).lower_border ≡ k * g.granularity
    higher : (g'.vg k).higher_border ≡ last
    before : (i : ℕ) → i < k → SameBorders (g'.vg i) (g.vg i)
    next : (i : ℕ) → i < k → (g'.vg i).next ≡ (if suc i == k then some k else (g.vg i).next)
    head : (0 < k → g.global_vg_list ≡ some 0) → g'.global_vg_list ≡ some 0

  init_group-Added :
      (k last : ℕ) (g : Groups Heads)
      → k * g.granularity < 2 ^ 64
      → Added k last g (init_group lists k last g)
  unfolding init_group init_vg_element
  init_group-Added k last g fits =
      let s = set_next g (group_before k) k in
      let v = init_vg_element (record (s.vg k) {
        lower_border = k * g.granularity % 2 ^ 64;
        higher_border = last;
        vg_id = k;
      }) in
      let here = update_self s.vg k v in
      let product : k * g.granularity % 2 ^ 64 ≡ k * g.granularity = mod-eq_of_lt fits in
      record {
        granularity = set_next-granularity g k;
        num = set_next-num g k;
        lower = ap (λ (w : VirtualGroup). w.lower_border) here ∙ product;
        higher = ap (λ (w : VirtualGroup). w.higher_border) here;
        before = λ i lt.
            let other : (k == i) ≡ false = ground arith in
            let e = update_ne s.vg k i v other in
            let b = set_next-SameBorders g k i in
            record {
              lower = ap (λ (w : VirtualGroup). w.lower_border) e ∙ b.lower;
              higher = ap (λ (w : VirtualGroup). w.higher_border) e ∙ b.higher;
            };
        next = λ i lt.
            let other : (k == i) ≡ false = ground arith in
            ap (λ (w : VirtualGroup). w.next) (update_ne s.vg k i v other) ∙ set_next-next g k i lt;
        head = set_next-head g k;
      }

  next-after :
      (size k last i : ℕ) (g g' : Groups Heads)
      → AreLaid size k g
      → Added k last g g'
      → suc i < suc k
      → (g'.vg i).next ≡ some (suc i)
  next-after size k last i g g' l a lt = elim (Bool-cases (suc i == k)) [
    | inl e ↦ let e' : k ≡ suc i = ground arith in a.next i (omega arith) ∙ rw (e, e') refl
    | inr e ↦
        let apart : suc i ≢ k = ground arith in
        a.next i (omega arith) ∙ rw e (l.next i (omega arith))
  ]

  borders-after :
      (size k last i : ℕ) (g g' : Groups Heads)
      → AreLaid size k g
      → Added k last g g'
      → i < suc k
      → (g'.vg i).lower_border ≡ i * size
  borders-after size k last i g g' l a lt = elim (Bool-cases (k == i)) [
    | inl e ↦ let e' : i ≡ k = ground arith in rw (e', a.lower, l.granularity) refl
    | inr e ↦
        let apart : k ≢ i = ground arith in
        (a.before i (omega arith)).lower ∙ l.lower i (omega arith)
  ]

  -- One more group of the full size.
  laid_after :
      (size k last : ℕ) (g g' : Groups Heads)
      → AreLaid size k g
      → Added k last g g'
      → last + 1 ≡ suc k * size
      → AreLaid size (suc k) g'
  laid_after size k last g g' l a ends = record {
    granularity = a.granularity ∙ l.granularity;
    lower = λ i lt. borders-after size k last i g g' l a lt;
    higher = λ i lt. elim (Bool-cases (k == i)) [
      | inl e ↦ let e' : i ≡ k = ground arith in rw (e', a.higher) ends
      | inr e ↦
          let apart : k ≢ i = ground arith in
          ap (λ (n : ℕ). n + 1) (a.before i (omega arith)).higher ∙ l.higher i (omega arith)
    ];
    next = λ i lt. next-after size k last i g g' l a lt;
    head = λ lt. a.head l.head;
  }

  init_groups-AreLaid :
      (size n k : ℕ) (g : Groups Heads)
      → AreLaid size k g
      → (k + n) * size < 2 ^ 64
      → 0 < size
      → AreLaid size (k + n) (init_groups lists n k g)
        × ((init_groups lists n k g).num_of_groups ≡ g.num_of_groups)
  unfolding init_groups
  init_groups-AreLaid size zero k g l fits pos =
      let e : k + zero ≡ k = omega arith in (rw e l, refl)
  init_groups-AreLaid size (suc n) k g l fits pos =
      let e : k + 1 + n ≡ k + suc n = omega arith in
      let here : k * size ≤ (k + suc n) * size = mul-le-mul_right size (omega arith) in
      let after : suc k * size ≤ (k + suc n) * size = mul-le-mul_right size (omega arith) in
      let step = suc-mul k size in
      let same = l.granularity in
      let product : k * g.granularity ≡ k * size = ap (λ (s : ℕ). k * s) same in
      let small : k * g.granularity < 2 ^ 64 = omega arith in
      let wrapped : k * g.granularity % 2 ^ 64 ≡ k * size = mod-eq_of_lt small ∙ product in
      let last = sub64 (add64 (k * g.granularity % 2 ^ 64) g.granularity) 1 in
      let ends : last + 1 ≡ suc k * size = rw (wrapped, same) (omega arith) in
      let a = init_group-Added k last g small in
      let one : suc k ≡ k + 1 = omega arith in
      let l' = laid_after size k last g (init_group lists k last g) l a ends in
      let (laid, num) =
        init_groups-AreLaid size n (k + 1) (init_group lists k last g) (rw (← one) l') (rw e fits)
          pos in
      (rw (← e) laid, num ∙ a.num)

-- The number of groups: all but the last one are full, and the last one is not empty.
record IsCount (max size n : ℕ) : Type 0 where
  below : ℕ
  one_more : n ≡ suc below
  filled : below * size < max
  enough : max ≤ n * size

number-IsCount :
    (max size : ℕ)
    → 0 < size
    → 0 < max
    → IsCount max size (max / size + (if max % size == 0 then 0 else 1))
number-IsCount max size pos some_track = elim (Bool-cases (max % size == 0)) [
  | inr e ↦ rw e (
      let more : 0 < max % size = ground arith in
      let parts = div-add-mod' max size in
      let few = mod-lt max pos in
      let next = suc-mul (max / size) size in
      let one : max / size + 1 ≡ suc (max / size) = omega arith in
      record {
        below = max / size;
        one_more = one;
        filled = omega arith;
        enough = rw (one, next) (omega arith);
      })
  | inl e ↦ rw e (by_quotient (max / size) (div-add-mod' max size) (ground arith))
]
  where
    by_quotient : (q : ℕ) → q * size + max % size ≡ max → max % size ≡ 0 → IsCount max size (q + 0)
    by_quotient zero parts none_left =
        let none : 0 * size ≡ 0 = zero-mul size in absurd (omega arith)
    by_quotient (suc q) parts none_left =
        let next = suc-mul q size in
        let same : suc q + 0 ≡ suc q = omega arith in
        record { below = q; one_more = same; filled = omega arith; enough = rw same (omega arith) }

module _ {Heads : Type 0} (max size below : ℕ) (h g : Groups Heads) (laid : AreLaid size below h)
    (lists : ListOps Heads) (a : Added lists below (sub64 max 1) h g) where
  -- The last group ends the chain.
  ended : Groups Heads
  ended = set_group g below (record (g.vg below) { next = none })

  ended-SameBorders : (i : ℕ) → SameBorders (ended.vg i) (g.vg i)
  unfolding ended
  ended-SameBorders i = elim (Bool-cases (below == i)) [
    | inr other ↦
        let e = update_ne g.vg below i (record (g.vg below) { next = none }) other in
        record {
          lower = ap (λ (v : VirtualGroup). v.lower_border) e;
          higher = ap (λ (v : VirtualGroup). v.higher_border) e;
        }
    | inl same ↦
        let same' : i ≡ below = ground arith in
        let e = update_self g.vg below (record (g.vg below) { next = none }) in
        record {
          lower = rw same' (ap (λ (v : VirtualGroup). v.lower_border) e);
          higher = rw same' (ap (λ (v : VirtualGroup). v.higher_border) e);
        }
  ]

  ended-higher : (i : ℕ) → suc i < suc below → (ended.vg i).higher_border + 1 ≡ suc i * size
  ended-higher i lt =
      ap (λ (n : ℕ). n + 1) ((ended-SameBorders i).higher ∙ (a.before i (omega arith)).higher)
      ∙ laid.higher i (omega arith)

  ended-next : (i : ℕ) → suc i < suc below → (ended.vg i).next ≡ some (suc i)
  unfolding ended
  ended-next i lt =
      let other : (below == i) ≡ false = ground arith in
      ap (λ (v : VirtualGroup). v.next)
        (update_ne g.vg below i (record (g.vg below) { next = none }) other)
      ∙ next-after lists size below (sub64 max 1) i h g laid a (omega arith)

  ended-IsLayout :
      0 < size
      → h.num_of_groups ≡ suc below
      → below * size < max
      → max ≤ suc below * size
      → max < 2 ^ 63
      → IsLayout max ended
  unfolding ended
  ended-IsLayout pos num filled enough small =
      let count : g.num_of_groups ≡ suc below = a.num ∙ num in
      let same : g.granularity ≡ size = a.granularity ∙ laid.granularity in
      let at_last : (i : ℕ) → suc i ≡ g.num_of_groups → i ≡ below = λ i e. omega arith in
      record {
        some_group = omega arith;
        some_track = rw same pos;
        lower = λ i lt. rw same (
            (ended-SameBorders i).lower
            ∙ borders-after lists size below (sub64 max 1) i h g laid a (omega arith));
        higher = λ i lt. rw same (ended-higher i (omega arith));
        last = λ i e.
            rw (at_last i e)
              (ap (λ (n : ℕ). n + 1) ((ended-SameBorders below).higher ∙ a.higher) ∙ omega arith);
        last_filled = λ i e. rw (same, at_last i e) filled;
        last_fits = rw (count, same) enough;
        next = λ i lt. ended-next i (omega arith);
        next_last = λ i e. rw (at_last i e) (
            ap (λ (v : VirtualGroup). v.next)
              (update_self g.vg below (record (g.vg below) { next = none })));
        head = a.head laid.head;
      }

-- If the granularity is positive, the disk has some track and fewer than 2 ^ 63, and the number of
-- groups is an int, then `init_virtual_groups` returns groups that divide the tracks: each group but
-- the last one begins at its number times the granularity and has that many tracks, the last one ends
-- with the last track and is not empty, and the chain of the groups has them in order.
pub init_virtual_groups-IsLayout :
    {Heads : Type 0} (lists : ListOps Heads) (d : Disk) (g : Groups Heads)
    → 0 < g.granularity
    → 0 < d.report.max_track_num
    → d.report.max_track_num < 2 ^ 63
    → d.report.max_track_num / g.granularity < 2 ^ 31 - 1
    → Returns
        (init_virtual_groups lists d g)
        (λ g'. IsLayout d.report.max_track_num g' × (g'.granularity ≡ g.granularity))
unfolding init_virtual_groups init_last_group ended
init_virtual_groups-IsLayout lists d g pos some_track small few =
    let max = d.report.max_track_num in
    let size = g.granularity in
    let n = max / size + (if max % size == 0 then 0 else 1) in
    let c = number-IsCount max size pos some_track in
    let filled = c.filled in
    let one = c.one_more in
    let p : ltb 0 g.granularity ≡ true = ground arith in
    let few' : n < 2 ^ 31 = elim (Bool-cases (max % size == 0)) [
      | inl e ↦ rw e (omega arith)
      | inr e ↦ rw e (omega arith)
    ] in
    let q : ltb 0 n && ltb n (2 ^ 31) ≡ true = ground arith in
    let start = record g {
      num_of_groups = n;
      vg_update_arr = λ _. false;
      heads = init_heads lists g.heads;
    } in
    let empty : AreLaid size 0 start = record {
      granularity = refl;
      lower = λ i lt. absurd (omega arith);
      higher = λ i lt. absurd (omega arith);
      next = λ i lt. absurd (omega arith);
      head = λ lt. absurd (omega arith);
    } in
    let k : n - 1 ≡ c.below = omega arith in
    let z : 0 + c.below ≡ c.below = omega arith in
    let h = init_groups lists c.below 0 start in
    let (laid, num) =
      init_groups-AreLaid lists size c.below 0 start empty (rw z (omega arith)) pos in
    let laid' : AreLaid size c.below h = rw z at laid in
    let same = laid'.granularity in
    let a = init_group-Added lists c.below (sub64 max 1) h (rw same (omega arith)) in
    let g' = init_group lists c.below (sub64 max 1) h in
    (
      ended max size c.below h g' laid' lists a,
      rw (p, q, k) refl,
      (
        ended-IsLayout max size c.below h g' laid' lists a pos (num ∙ one) filled
            (rw one at c.enough) small,
        a.granularity ∙ same,
      ),
    )
