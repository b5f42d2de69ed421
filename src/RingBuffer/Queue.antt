-- ===== src/RingBuffer/Queue.antt =====
-- src/ring_buffer.c: a ring buffer holds a queue, the oldest length first, in the cells after
-- `front` up to `rear`. One cell stays unused.
use native.Mathlib.Nat.{mod-add-mod, mod-lt}
use imr_dedupe.Prelude.{
  ℕ, suc, ◌+◌, ◌-◌, ◌%◌, ◌<◌, ◌≡◌, ◌≢◌, refl, ap, ap₂, sym, ◌∙◌, List, [], ◌∷◌, ◌++◌, true, stop,
  exit_failure, arith, update, slice, slice-suc, slice_congr, slice_shift, length, length-slice,
  inl, inr, ◌⊎◌, Bool-cases, mod_once, ◌==◌, replicate, Returns,
}
use imr_dedupe.RingBuffer.{RingBuffer, ring_buffer_size, init_ring_buffer, is_full, insert, delete}

pub record IsValid (h : RingBuffer) : Type 0 where
  pub front_in : h.front < h.capacity
  pub rear_in : h.rear < h.capacity

-- How many lengths are held.
abbrev pub count : RingBuffer → ℕ
count h = (h.rear + h.capacity - h.front) % h.capacity

-- The cell of the `j`-th oldest length.
abbrev pub nth : RingBuffer → ℕ → ℕ
nth h j = h.ring_buffer ((h.front + 1 + j) % h.capacity)

abbrev pub contents : RingBuffer → List ℕ
contents h = slice (nth h) 0 (count h)

shifted : (c f j : ℕ) → (f + 1 + (j + 1)) % c ≡ ((f + 1) % c + 1 + j) % c
shifted c f j =
    ap (λ (k : ℕ). k % c) {x = f + 1 + (j + 1)} {y = f + 1 + (1 + j)} (omega arith)
    ∙ sym (mod-add-mod (f + 1) c (1 + j))
    ∙ ap (λ (k : ℕ). k % c) (omega arith)

module _ (c f r : ℕ) (hf : f < c) (hr : r < c) where
  count-insert : f ≢ (r + 1) % c → ((r + 1) % c + c - f) % c ≡ suc ((r + c - f) % c)
  count-insert ne =
      let a = mod_once (r + 1) c (omega arith) in
      let b = mod_once ((r + 1) % c + c - f) c (omega arith) in
      let d = mod_once (r + c - f) c (omega arith) in omega (arith, a, b, d)

  count-lt : f ≢ (r + 1) % c → suc ((r + c - f) % c) < c
  count-lt ne =
      let a = mod_once (r + 1) c (omega arith) in
      let d = mod_once (r + c - f) c (omega arith) in omega (arith, a, d)

  nth-end : (f + 1 + (r + c - f) % c) % c ≡ (r + 1) % c
  nth-end =
      let a = mod_once (r + 1) c (omega arith) in
      let d = mod_once (r + c - f) c (omega arith) in
      let e = mod_once (f + 1 + (r + c - f) % c) c (omega arith) in omega (arith, a, d, e)

  count-delete : f ≢ r → (r + c - f) % c ≡ suc ((r + c - (f + 1) % c) % c)
  count-delete ne =
      let a = mod_once (f + 1) c (omega arith) in
      let d = mod_once (r + c - f) c (omega arith) in
      let e = mod_once (r + c - (f + 1) % c) c (omega arith) in omega (arith, a, d, e)

  nth-before : (j : ℕ) → j < (r + c - f) % c → (f + 1 + j) % c ≢ (r + 1) % c
  nth-before j h =
      let a = mod_once (r + 1) c (omega arith) in
      let d = mod_once (r + c - f) c (omega arith) in
      let e = mod_once (f + 1 + j) c (omega arith) in omega (arith, a, d, e)

  full_count : f ≡ (r + 1) % c → suc ((r + c - f) % c) ≡ c
  full_count e =
      let a = mod_once (r + 1) c (omega arith) in
      let d = mod_once (r + c - f) c (omega arith) in omega (arith, a, d)

  empty_count : f ≡ r → (r + c - f) % c ≡ 0
  empty_count e = let d = mod_once (r + c - f) c (omega arith) in omega (arith, d)

module _ (h : RingBuffer) where
  insert_queue :
      (len : ℕ)
      → IsValid h
      → h.front ≢ (h.rear + 1) % h.capacity
      → let rear = (h.rear + 1) % h.capacity in
        contents (record h { rear = rear; ring_buffer = update h.ring_buffer rear len })
        ≡ contents h ++ (len ∷ [])
  insert_queue len v ne =
      let c = h.capacity in
      let f = h.front in
      let n = count h in
      let rear = (h.rear + 1) % c in
      let buf = update h.ring_buffer rear len in
      let cell : ℕ → ℕ = λ j. buf ((f + 1 + j) % c) in
      rw (count-insert c f h.rear v.front_in v.rear_in ne) (
        slice-suc cell 0 n
        ∙ ap₂ (λ (l : List ℕ) (x : ℕ). l ++ (x ∷ []))
            (slice_congr cell (nth h) 0 n (λ j a b.
              let ne' = nth-before c f h.rear v.front_in v.rear_in j (omega arith) in ground arith))
            (let at = nth-end c f h.rear v.front_in v.rear_in in ground arith))

  delete_queue :
      IsValid h
      → h.front ≢ h.rear
      → contents h
        ≡ h.ring_buffer ((h.front + 1) % h.capacity)
          ∷ contents (record h { front = (h.front + 1) % h.capacity })
  delete_queue v ne =
      let c = h.capacity in
      let n = (h.rear + c - (h.front + 1) % c) % c in
      let rest : ℕ → ℕ = λ j. h.ring_buffer (((h.front + 1) % c + 1 + j) % c) in
      rw (count-delete c h.front h.rear v.front_in v.rear_in ne) (
        ap₂ ◌∷◌ (ap (λ (k : ℕ). h.ring_buffer (k % c)) (omega arith)) (
          slice_shift (nth h) 0 n
          ∙ slice_congr (λ j. nth h (j + 1)) rest 0 n
              (λ j a b. ap h.ring_buffer (shifted c h.front j))))

-- `init_ring_buffer` gives a valid buffer that holds `ring_buffer_size` zeros, which fill it.
init_ring_buffer-contents :
    (h : RingBuffer)
    → IsValid (init_ring_buffer h)
      × (contents (init_ring_buffer h) ≡ replicate ring_buffer_size 0)
      × (is_full (init_ring_buffer h) ≡ true)
unfolding init_ring_buffer is_full
init_ring_buffer-contents h = (omega arith, refl, refl)

-- On a valid buffer `insert` exits exactly when the buffer is full, which is when it holds one
-- length less than its capacity; otherwise the buffer stays valid and its queue grows at the end.
pub insert-contents :
    (h : RingBuffer) (len : ℕ)
    → IsValid h
    → ((insert h len ≡ stop exit_failure) × (suc (length (contents h)) ≡ h.capacity))
      ⊎ (Returns
          (insert h len)
          λ h'. IsValid h' × (h'.capacity ≡ h.capacity) × (contents h' ≡ contents h ++ (len ∷ [])))
unfolding insert
insert-contents h len v = elim (Bool-cases (h.front == (h.rear + 1) % h.capacity)) [
  | inl e ↦ inl (
    rw e refl,
    rw (length-slice (nth h) 0 (count h)) (full_count _ _ _ v.front_in v.rear_in (ground arith)),
  )
  | inr e ↦ inr (
    record h {
      rear = (h.rear + 1) % h.capacity;
      ring_buffer = update h.ring_buffer ((h.rear + 1) % h.capacity) len;
    },
    rw e refl,
    (
      record { front_in = v.front_in; rear_in = mod-lt _ (omega arith) },
      refl,
      insert_queue h len v (ground arith),
    ),
  )
]

-- On a valid buffer `delete` exits exactly when the queue is empty; otherwise it takes the oldest
-- length from the front of the queue and keeps the rest.
pub delete-contents :
    (h : RingBuffer)
    → IsValid h
    → ((delete h ≡ stop exit_failure) × (contents h ≡ []))
      ⊎ (Returns
          (delete h)
          λ r. IsValid r.1 × (r.1.capacity ≡ h.capacity) × (contents h ≡ r.0 ∷ contents r.1))
unfolding delete
delete-contents h v = elim (Bool-cases (h.front == h.rear)) [
  | inl e ↦ inl (rw e refl, rw (empty_count _ _ _ v.front_in v.rear_in (ground arith)) refl)
  | inr e ↦ inr (
    (h.ring_buffer ((h.front + 1) % h.capacity), record h { front = (h.front + 1) % h.capacity }),
    rw e refl,
    (
      record { front_in = mod-lt _ (omega arith); rear_in = v.rear_in },
      refl,
      delete_queue h v (ground arith),
    ),
  )
]
