-- ===== src/HashTable/Probe.antt =====
-- src/hash_table.c: the probe loop finds the first cell of its path that stops it.
use native.Mathlib.Nat.{mod-lt, mod-add-mod, mod-eq_of_lt}
use imr_dedupe.Prelude.{
  ℕ, zero, suc, ◌+◌, ◌-◌, ◌%◌, ◌≤◌, ◌<◌, ◌≡◌, refl, sym, ap, ◌∙◌, subst, Bool, true, false, stop,
  out_of_fuel, Returns, returns_of_eq, returns_map, arith, Bool-cases, mod_once, inl, inr,
}
use imr_dedupe.HashTable.{probe}

-- The `k`-th cell of the path from `i`.
abbrev pub path : (size i k : ℕ) → ℕ
path size i k = (i + k) % size

path-suc : (size i k : ℕ) → path size ((i + 1) % size) k ≡ path size i (suc k)
path-suc size i k = mod-add-mod (i + 1) size k ∙ ap (λ (n : ℕ). n % size) (omega arith)

-- `r` is the first cell of the path from `i` that stops the loop, after `k` others.
pub record First (halt : ℕ → Bool) (size i r k : ℕ) : Type 0 where
  pub at : path size i k ≡ r
  pub halts : halt r ≡ true
  pub before : (j : ℕ) → j < k → halt (path size i j) ≡ false

path-zero : (size i : ℕ) → i < size → path size i 0 ≡ i
path-zero size i inside =
    ap (λ (n : ℕ). n % size) {x = i + 0} {y = i} (omega arith) ∙ mod-eq_of_lt inside

-- A cell of the path, one step on.
First-suc :
    (halt : ℕ → Bool) (size i r n : ℕ)
    → i < size
    → halt i ≡ false
    → First halt size ((i + 1) % size) r n
    → First halt size i r (suc n)
First-suc halt size i r n inside e f = record {
  at = sym (path-suc size i n) ∙ f.at;
  halts = f.halts;
  before = λ j l. go j l;
}
  where
    go : (j : ℕ) → j < suc n → halt (path size i j) ≡ false
    go zero l = ap halt (path-zero size i inside) ∙ e
    go (suc j) l = ap halt (sym (path-suc size i j)) ∙ f.before j (omega arith)

-- With fuel for the path up to a cell that stops the loop, it ends at the first such cell.
probe-First :
    (halt : ℕ → Bool) (size fuel i k : ℕ)
    → i < size
    → k < fuel
    → halt (path size i k) ≡ true
    → Returns (probe halt size fuel i) λ r. (n : ℕ) × (n ≤ k) × First halt size i r n
unfolding probe
probe-First halt size zero i k inside enough h = absurd (omega arith)
probe-First halt size (suc fuel) i k inside enough h = elim (Bool-cases (halt i)) [
  | inl e ↦ (
    i,
    rw (e, probe) refl,
    (
      0,
      omega arith,
      record { at = path-zero size i inside; halts = e; before = λ j l. absurd (omega arith) },
    ),
  )
  | inr e ↦ next (probe-First halt size fuel ((i + 1) % size)) k enough h e
]
  where
    after : ℕ
    after = (i + 1) % size

    next :
        ((m : ℕ)
          → after < size
          → m < fuel
          → halt (path size after m) ≡ true
          → Returns (probe halt size fuel after) λ r. (n : ℕ) × (n ≤ m) × First halt size after r n)
        → (k : ℕ) → k < suc fuel
        → halt (path size i k) ≡ true
        → halt i ≡ false
        → Returns (probe halt size (suc fuel) i) λ r. (n : ℕ) × (n ≤ k) × First halt size i r n
    next rest zero enough h e = cc (ap halt (path-zero size i inside))
    next rest (suc k) enough h e = returns_of_eq (rw (e, probe) refl) (
        returns_map (λ r (n, le, f). (suc n, omega arith, First-suc halt size i r n inside e f))
          (rest k (mod-lt _ (omega arith)) (omega arith) (ap halt (path-suc size i k) ∙ h)))

-- The steps from one cell to another, going round.
pub steps : (size i c : ℕ) → ℕ
steps size i c = (c + size - i) % size

pub path-steps :
    (size i c : ℕ)
    → i < size
    → c < size
    → (path size i (steps size i c) ≡ c) × (steps size i c < size)
unfolding steps
path-steps size i c hi hc =
    let a = mod_once (c + size - i) size (omega arith) in
    let b = mod_once (i + (c + size - i) % size) size (omega arith) in
    (omega (arith, a, b), mod-lt _ (omega arith))

-- Without a cell that stops the loop it runs for ever: any fuel runs out.
pub probe-out_of_fuel :
    (halt : ℕ → Bool) (size fuel i : ℕ)
    → i < size
    → ((c : ℕ) → c < size → halt c ≡ false)
    → probe halt size fuel i ≡ stop out_of_fuel
unfolding probe
probe-out_of_fuel halt size zero i inside h = refl
probe-out_of_fuel halt size (suc fuel) i inside h =
    rw (h i inside, probe)
      (probe-out_of_fuel halt size fuel ((i + 1) % size) (mod-lt _ (omega arith)) h)

-- A loop that has as many rounds as there are cells, one of which stops it, ends at the first of
-- its path that does.
pub probe-Returns :
    (halt : ℕ → Bool) (size i c : ℕ)
    → i < size
    → c < size
    → halt c ≡ true
    → Returns
        (probe halt size size i)
        λ r. (n : ℕ) × (n < size) × (r < size) × First halt size i r n
probe-Returns halt size i c hi hc h =
    let (there, few) = path-steps size i c hi hc in
    returns_map
      (λ r (n, le, f). (n, omega arith, subst (λ m. m < size) f.at (mod-lt _ (omega arith)), f))
      (probe-First halt size size i (steps size i c) hi few (ap halt there ∙ h))

-- Fewer steps than there are cells lead to different cells.
pub path_injective :
    (size i k n : ℕ) → i < size → k < size → n < size → path size i k ≡ path size i n → k ≡ n
path_injective size i k n hi hk hn e =
    let a = mod_once (i + k) size (omega arith) in
    let b = mod_once (i + n) size (omega arith) in omega (arith, a, b)
