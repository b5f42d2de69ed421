-- ===== src/VirtualGroups/Journal/Blocks.antt =====
-- src/virtual_groups.c (vg_journal_get_block) and src/pba.c (find_next_pba_jfs): the block that a write
-- of the journal gets was not in use.
use imr_dedupe.Prelude.{
  ℕ, zero, suc, ◌-◌, ◌≡◌, ◌≢◌, ◌⊎◌, refl, sym, ap, ◌∙◌, subst, Bool, true, false, not, Option, none,
  some, ltb, ◌==◌, if◌then◌else◌, update, update_self, update_ne, Outcome, ok, stop, ◌>>=◌, ◌>>◌,
  require, undefined, exit_failure, bind_ok, Holds, Holds-bind, Holds-chain, arith, Bool-cases, inl,
  inr,
}
use imr_dedupe.Disk.{
  Disk, Block, add64, booked, free, is_invalid, is_toptrack, set_status, storage_is_in_use,
}
use imr_dedupe.Zalloc.{sub64}
use imr_dedupe.VirtualGroups.{
  ListOps, VirtualGroup, Groups, CheckBottom, journal_vg, set_current_track, set_current, get_vg,
}
use imr_dedupe.VirtualGroups.Allocate.{book_current, GotBlock, Search, find_unused}
use imr_dedupe.VirtualGroups.Allocate.Searches.{IsUnused, find_track-FoundSome, find_track-IsUnused}
use imr_dedupe.VirtualGroups.Journal.{
  check_bottom_is_free, is_available, find_in_journal_group, same_group, clear_track,
  clear_near_track, get_journal_block, try_journal_groups, journal_get_before_current_vg,
  journal_get_after_current_vg, give_up, go_on_or_give_up, continue_journal,
  journal_get_from_current_vg, all_groups, JournalBlock, no_block, get_before, get_after, take_or,
  vg_journal_get_block, journal_switch_check_bottom, find_next_pba_jfs,
}

-- A block stays, or is invalid and becomes free.
abbrev pub Freed : Block → Block → Type 0
Freed b b' = (b' ≡ b) ⊎ ((is_invalid b.status ≡ true) × (b' ≡ set_status free b))

Freed-trans : (a b c : Block) → Freed a b → Freed b c → Freed a c
Freed-trans a b c (inl e) (inl e') = inl (e' ∙ e)
Freed-trans a b c (inl e) (inr (gone, e')) = inr (rw e at gone, e' ∙ ap (set_status free) e)
Freed-trans a b c (inr (gone, e)) (inl e') = inr (gone, e' ∙ e)
Freed-trans a b c (inr (gone, e)) (inr (gone', e')) =
    let free_now : is_invalid free ≡ true =
      ap (λ (x : Block). is_invalid x.status) (sym e) ∙ gone' in
    cc

abbrev AllFreed : Disk → Disk → Type 0
AllFreed d d' = (q : ℕ) → Freed (d.storage q) (d'.storage q)

clear_track-AllFreed : (d : Disk) (track : ℕ) → Holds (AllFreed d) (clear_track d track)
unfolding clear_track
clear_track-AllFreed d track =
    Holds-bind (AllFreed d) (require (ltb track d.report.max_block_num) undefined) _
      (λ _. by_status (is_invalid (d.storage track).status) refl)
  where
    by_status :
        (gone : Bool)
        → is_invalid (d.storage track).status ≡ gone
        → AllFreed d (
            if gone
            then record d { storage = update d.storage track (set_status free (d.storage track)) }
            else d)
    by_status false e = λ q. inl refl
    by_status true e = λ q. elim (Bool-cases (track == q)) [
      | inr other ↦ inl (update_ne d.storage track q _ other)
      | inl same ↦
          let same' : q ≡ track = ground arith in
          inr (rw same' e, rw same' (update_self d.storage track _))
    ]

clear_near_track-AllFreed : (d : Disk) (track : ℕ) → Holds (AllFreed d) (clear_near_track d track)
unfolding clear_near_track
clear_near_track-AllFreed d track =
    Holds-chain (AllFreed d) _ _ (lower (track == 0))
      (λ d₁ f. higher d₁ f (ltb track (sub64 d₁.report.max_track_num 1)))
  where
    lower :
        (first : Bool)
        → Holds (AllFreed d) (elim first [ true ↦ ok d | false ↦ clear_track d (track - 1) ])
    lower true = λ q. inl refl
    lower false = clear_track-AllFreed d (track - 1)

    higher :
        (d₁ : Disk)
        → AllFreed d d₁
        → (more : Bool)
        → Holds (AllFreed d) (elim more [ true ↦ clear_track d₁ (add64 track 1) | false ↦ ok d₁ ])
    higher d₁ f false = f
    higher d₁ f true =
        subst (λ m. Holds (AllFreed d) m) (bind_ok (clear_track d₁ (add64 track 1)))
          (Holds-chain (AllFreed d) (clear_track d₁ (add64 track 1)) (λ d₂. ok d₂)
            (clear_track-AllFreed d₁ (add64 track 1))
            (λ d₂ f' q. Freed-trans (d.storage q) (d₁.storage q) (d₂.storage q) (f q) (f' q)))

-- The block was not in use, and is booked; each other block stays, or was invalid and is free.
pub record IsJournalBlock (d : Disk) (pba : ℕ) (d' : Disk) : Type 0 where
  pub was_unused : storage_is_in_use d pba ≡ false
  pub block : d'.storage pba ≡ set_status booked (d.storage pba)
  pub others : (q : ℕ) → q ≢ pba → Freed (d.storage q) (d'.storage q)

module _ {Heads : Type 0} (lists : ListOps Heads) (d : Disk) where
  -- The current group of the journal goes on at a track that is not in use.
  abbrev IsJournalReady : Groups Heads → Type 0
  IsJournalReady g =
      (vg : ℕ) × (g.current_vg journal_vg ≡ some vg)
      × (storage_is_in_use d (g.vg vg).current_track ≡ false)

  abbrev IsJournalFound : Bool × Groups Heads → Type 0
  IsJournalFound (true, g) = IsJournalReady g
  IsJournalFound (false, g) = Unit {0}

  is_available-unused :
      (check : CheckBottom) (bottom : ℕ → Bool) (track : ℕ)
      → Holds
          (λ accepted. accepted ≡ true → storage_is_in_use d track ≡ false)
          (is_available d check bottom track)
  unfolding is_available
  is_available-unused check bottom track =
      go (ltb track d.report.max_block_num) (storage_is_in_use d track) refl
    where
      always :
          (m : Outcome Bool)
          → storage_is_in_use d track ≡ false
          → Holds (λ accepted. accepted ≡ true → storage_is_in_use d track ≡ false) m
      always (ok b) e = λ _. e
      always (stop s) e = tt

      go :
          (inside used : Bool)
          → storage_is_in_use d track ≡ used
          → Holds
              (λ accepted. accepted ≡ true → storage_is_in_use d track ≡ false)
              ((require inside undefined >> ok used) >>= λ used. elim used [
                | true ↦ ok false
                | false ↦ elim (bottom track) [
                  | true ↦ check_bottom_is_free check d track
                  | false ↦ ok true
                ]
              ])
      go false used e = tt
      go true true e = λ k. cc
      go true false e = always _ e

  find_in_journal_group-IsUnused :
      (check : CheckBottom) (vg : VirtualGroup)
      → Holds (IsUnused d) (find_in_journal_group d check vg)
  unfolding find_in_journal_group
  find_in_journal_group-IsUnused check vg =
      Holds-chain (IsUnused d) _ _
        (find_track-FoundSome (λ track. storage_is_in_use d track ≡ false)
          (is_available d check (λ _. true)) 2 _ vg.bottom_start
          (is_available-unused check (λ _. true)))
        by_bottom
    where
      by_bottom :
          (found : Option ℕ)
          → IsUnused d found
          → Holds
              (IsUnused d)
              (elim found [ some track ↦ ok (some track) | none ↦ find_unused d vg vg.top_start ])
      by_bottom (some track) u = u
      by_bottom none u = find_track-IsUnused d 2 _ vg.top_start

  moved-IsJournalReady :
      (g : Groups Heads) (vg track : ℕ)
      → g.current_vg journal_vg ≡ some vg
      → storage_is_in_use d track ≡ false
      → IsJournalReady (set_current_track g vg track)
  moved-IsJournalReady g vg track current unused = (
    vg,
    current,
    ap (λ (v : VirtualGroup). storage_is_in_use d v.current_track)
          (update_self g.vg vg (record (g.vg vg) { current_track = track }))
        ∙ unused,
  )

  get_vg-IsJournalFound :
      (g : Groups Heads) (vg track : ℕ)
      → storage_is_in_use d track ≡ false
      → Holds IsJournalFound
          (get_vg lists (set_current_track g vg track) vg (some journal_vg) >>= λ g'. ok (true, g'))
  unfolding get_vg
  get_vg-IsJournalFound g vg track unused =
      let g₁ = set_current_track g vg track in
      (
        vg,
        refl,
        ap (λ (v : VirtualGroup). storage_is_in_use d v.current_track)
              (update_self g₁.vg vg (record (g₁.vg vg) { in_use = true }))
            ∙ ap (λ (v : VirtualGroup). storage_is_in_use d v.current_track)
                (update_self g.vg vg (record (g.vg vg) { current_track = track }))
            ∙ unused,
      )

  try_journal_groups-IsJournalFound :
      (g : Groups Heads) (fuel : ℕ) (vg last : Option ℕ)
      → Holds IsJournalFound (try_journal_groups lists d g fuel vg last)
  unfolding try_journal_groups
  try_journal_groups-IsJournalFound g zero vg last = tt
  try_journal_groups-IsJournalFound g (suc fuel) none last = at_end (same_group none last)
    where
      at_end :
          (b : Bool)
          → Holds IsJournalFound (elim b [ true ↦ ok (false, g) | false ↦ stop undefined ])
      at_end true = tt
      at_end false = tt
  try_journal_groups-IsJournalFound g (suc fuel) (some vg) last =
      at_last (same_group (some vg) last) (try_journal_groups lists d g fuel (g.vg vg).next last)
        (try_journal_groups-IsJournalFound g fuel (g.vg vg).next last)
    where
      by_track :
          (found : Option ℕ)
          → IsUnused d found
          → (rest : Search Heads) → Holds IsJournalFound rest
          → Holds IsJournalFound (elim found [
            | none ↦ rest
            | some track ↦
                get_vg lists (set_current_track g vg track) vg (some journal_vg) >>= λ g'.
                ok (true, g')
          ])
      by_track none u rest h = h
      by_track (some track) u rest h = get_vg-IsJournalFound g vg track u

      in_use :
          (b : Bool)
          → (rest : Search Heads) → Holds IsJournalFound rest
          → Holds IsJournalFound (elim b [
            | true ↦ rest
            | false ↦ find_in_journal_group d g.check_bottom (g.vg vg) >>= λ found. elim found [
              | none ↦ rest
              | some track ↦
                  get_vg lists (set_current_track g vg track) vg (some journal_vg) >>= λ g'.
                  ok (true, g')
            ]
          ])
      in_use true rest h = h
      in_use false rest h =
          Holds-chain IsJournalFound (find_in_journal_group d g.check_bottom (g.vg vg)) _
            (find_in_journal_group-IsUnused g.check_bottom (g.vg vg))
            (λ found u. by_track found u rest h)

      at_last :
          (b : Bool)
          → (rest : Search Heads) → Holds IsJournalFound rest
          → Holds IsJournalFound (elim b [
            | true ↦ ok (false, g)
            | false ↦ elim (g.vg vg).in_use [
              | true ↦ rest
              | false ↦ find_in_journal_group d g.check_bottom (g.vg vg) >>= λ found. elim found [
                | none ↦ rest
                | some track ↦
                    get_vg lists (set_current_track g vg track) vg (some journal_vg) >>= λ g'.
                    ok (true, g')
              ]
            ]
          ])
      at_last true rest h = tt
      at_last false rest h = in_use (g.vg vg).in_use rest h

  before-IsJournalFound :
      (g : Groups Heads) → Holds IsJournalFound (journal_get_before_current_vg lists d g)
  unfolding journal_get_before_current_vg
  before-IsJournalFound g = by_current (g.current_vg journal_vg)
    where
      by_result :
          (r : Bool × Groups Heads)
          → IsJournalFound r
          → Holds IsJournalFound
              (elim r.0 [ true ↦ ok r | false ↦ ok (false, set_current r.1 journal_vg none) ])
      by_result (true, g') h = h
      by_result (false, g') h = tt

      by_current :
          (o : Option ℕ)
          → Holds IsJournalFound (elim o [
            | none ↦ ok (false, g)
            | some vg ↦
                try_journal_groups lists d g (all_groups lists g) g.global_vg_list (some vg)
                >>= λ r. elim r.0 [
                  | true ↦ ok r
                  | false ↦ ok (false, set_current r.1 journal_vg none)
                ]
          ])
      by_current none = tt
      by_current (some vg) =
          Holds-chain IsJournalFound _ _
            (try_journal_groups-IsJournalFound g _ g.global_vg_list (some vg)) by_result

  after-IsJournalFound :
      (g : Groups Heads) → Holds IsJournalFound (journal_get_after_current_vg lists d g)
  unfolding journal_get_after_current_vg
  after-IsJournalFound g = try_journal_groups-IsJournalFound g _ _ none

  continue-IsJournalFound :
      (g : Groups Heads) (o : Option ℕ)
      → g.current_vg journal_vg ≡ o
      → Holds IsJournalFound (continue_journal lists d g o)
  unfolding continue_journal
  continue-IsJournalFound g none e = tt
  continue-IsJournalFound g (some vg) e =
      Holds-chain IsJournalFound _ _
        (find_track-FoundSome (λ track. storage_is_in_use d track ≡ false)
          (is_available d g.check_bottom (λ track. not (is_toptrack track))) 2 _
          (g.vg vg).current_track
          (is_available-unused g.check_bottom (λ track. not (is_toptrack track))))
        by_track
    where
      by_top :
          (found : Option ℕ)
          → IsUnused d found
          → Holds IsJournalFound (ok (go_on_or_give_up lists g vg found))
      by_top none u = tt
      by_top (some track) u = moved-IsJournalReady g vg track e u

      by_side :
          (top : Bool)
          → Holds IsJournalFound (elim top [
            | true ↦ ok (give_up lists g vg)
            | false ↦ find_unused d (g.vg vg) (g.vg vg).top_start >>= λ top.
                ok (go_on_or_give_up lists g vg top)
          ])
      by_side true = tt
      by_side false =
          Holds-chain IsJournalFound _ _ (find_track-IsUnused d 2 _ (g.vg vg).top_start) by_top

      by_track :
          (found : Option ℕ)
          → IsUnused d found
          → Holds IsJournalFound (elim found [
            | some track ↦ ok (true, set_current_track g vg track)
            | none ↦ elim (is_toptrack (g.vg vg).current_track) [
              | true ↦ ok (give_up lists g vg)
              | false ↦ find_unused d (g.vg vg) (g.vg vg).top_start >>= λ top.
                  ok (go_on_or_give_up lists g vg top)
            ]
          ])
      by_track (some track) u = moved-IsJournalReady g vg track e u
      by_track none u = by_side (is_toptrack (g.vg vg).current_track)

  abbrev IsGot : GotBlock Heads → Type 0
  IsGot (d', g, pba) = IsJournalBlock d pba d'

  get_journal_block-IsJournalBlock :
      (g : Groups Heads) → IsJournalReady g → Holds IsGot (get_journal_block d g)
  unfolding get_journal_block book_current
  get_journal_block-IsJournalBlock g (vg, current, unused) = rw current (
      let pba = (g.vg vg).current_track in
      let b = set_status booked (d.storage pba) in
      let d₁ = record d { storage = update d.storage pba b } in
      go (ltb pba d.report.max_block_num) (
        Holds-chain IsGot (clear_near_track d₁ pba)
          (λ d₂. ok (d₂, set_current_track g vg (add64 pba 2), pba))
          (clear_near_track-AllFreed d₁ pba)
          (λ d₂ f. record {
            was_unused = unused;
            block = not_freed b (d₂.storage pba) refl (
                subst (λ (x : Block). Freed x (d₂.storage pba)) (update_self d.storage pba b)
                  (f pba));
            others = λ q ne.
                let other : (pba == q) ≡ false = ground arith in
                subst (λ (x : Block). Freed x (d₂.storage q)) (update_ne d.storage pba q b other)
                  (f q);
          })))
    where
      not_freed : (b b' : Block) → is_invalid b.status ≡ false → Freed b b' → b' ≡ b
      not_freed b b' kept (inl e) = e
      not_freed b b' kept (inr (gone, e)) = cc

      go :
          (inside : Bool)
          → Holds IsGot (
              let pba = (g.vg vg).current_track in
              clear_near_track
                (record d { storage = update d.storage pba (set_status booked (d.storage pba)) })
                pba
              >>= λ d₂. ok (d₂, set_current_track g vg (add64 pba 2), pba))
          → Holds IsGot (
              let pba = (g.vg vg).current_track in
              let d₁ = record d {
                storage = update d.storage pba (set_status booked (d.storage pba));
              } in
              let r : GotBlock Heads = (d₁, set_current_track g vg (add64 pba 2), pba) in
              (require inside undefined >> ok r) >>= λ r.
              clear_near_track r.0 r.2 >>= λ d₂. ok (d₂, r.1, r.2))
      go true h = h
      go false h = tt

  -- Without a block the disk is as it was.
  abbrev IsResult : JournalBlock lists → Type 0
  IsResult (d', g, some pba) = IsJournalBlock d pba d'
  IsResult (d', g, none) = d' ≡ d

  take_or-IsResult :
      (otherwise : Disk → Groups Heads → Outcome (JournalBlock lists)) (r : Bool × Groups Heads)
      → IsJournalFound r
      → ((g : Groups Heads) → Holds IsResult (otherwise d g))
      → Holds IsResult (take_or lists otherwise d r)
  take_or-IsResult otherwise (false, g) f h = h g
  take_or-IsResult otherwise (true, g) f h =
      Holds-chain IsResult (get_journal_block d g) (λ r. ok (r.0, r.1, some r.2))
        (get_journal_block-IsJournalBlock g f) (λ r b. b)

  get_before-IsResult : (g : Groups Heads) → Holds IsResult (get_before lists d g)
  get_before-IsResult g =
      Holds-chain IsResult _ (take_or lists (no_block lists) d) (before-IsJournalFound g)
        (λ r f. take_or-IsResult (no_block lists) r f (λ g'. refl))

  get_after-IsResult : (g : Groups Heads) → Holds IsResult (get_after lists d g)
  get_after-IsResult g =
      Holds-chain IsResult _ (take_or lists (get_before lists) d) (after-IsJournalFound g)
        (λ r f. take_or-IsResult (get_before lists) r f get_before-IsResult)

  vg_journal_get_block-IsResult :
      (g : Groups Heads) → Holds IsResult (vg_journal_get_block lists d g)
  unfolding vg_journal_get_block journal_get_from_current_vg
  vg_journal_get_block-IsResult g =
      Holds-chain IsResult _ (take_or lists (get_after lists) d)
        (continue-IsJournalFound g (g.current_vg journal_vg) refl)
        (λ r f. take_or-IsResult (get_after lists) r f get_after-IsResult)

-- A block that `find_next_pba_jfs` returns for the journal, after however many rounds with weaker
-- checks, was not in use and is booked; each other block stays as it was, or was invalid and becomes
-- free.
pub find_next_pba_jfs-IsJournalBlock :
    {Heads : Type 0} (lists : ListOps Heads) (fuel : ℕ) (d : Disk) (g : Groups Heads)
    → Holds (λ (r : GotBlock Heads). IsJournalBlock d r.2 r.0) (find_next_pba_jfs lists fuel d g)
unfolding find_next_pba_jfs
find_next_pba_jfs-IsJournalBlock lists zero d g = tt
find_next_pba_jfs-IsJournalBlock {Heads} lists (suc fuel) d g =
    Holds-chain IsBlock (vg_journal_get_block lists d g) _ (vg_journal_get_block-IsResult lists d g)
      (λ r h. by_result r.0 r.1 r.2 h (find_next_pba_jfs-IsJournalBlock lists fuel))
  where
    IsBlock : GotBlock Heads → Type 0
    IsBlock r = IsJournalBlock d r.2 r.0

    by_result :
        (d' : Disk) (g' : Groups Heads) (o : Option ℕ)
        → IsResult lists d (d', g', o)
        → ((d : Disk) (g : Groups Heads)
            → Holds
                (λ (r : GotBlock Heads). IsJournalBlock d r.2 r.0)
                (find_next_pba_jfs lists fuel d g))
        → Holds IsBlock (elim o [
          | some pba ↦ ok (d', g', pba)
          | none ↦ elim (journal_switch_check_bottom g').0 [
            | true ↦ find_next_pba_jfs lists fuel d' (journal_switch_check_bottom g').1
            | false ↦ stop exit_failure
          ]
        ])
    by_result d' g' (some pba) h rest = h
    by_result d' g' none h rest = by_switch (journal_switch_check_bottom g').0
      where
        by_switch :
            (more : Bool)
            → Holds IsBlock (elim more [
              | true ↦ find_next_pba_jfs lists fuel d' (journal_switch_check_bottom g').1
              | false ↦ stop exit_failure
            ])
        by_switch false = tt
        by_switch true =
            subst
              (λ (e : Disk).
                Holds (λ (r : GotBlock Heads). IsJournalBlock e r.2 r.0)
                  (find_next_pba_jfs lists fuel d' (journal_switch_check_bottom g').1))
              h (rest d' (journal_switch_check_bottom g').1)
