-- ===== src/Tests/Window.antt =====
-- A window that has room for two lengths and holds one.
use imr_dedupe.Prelude.{
  suc, ◌+◌, ◌≡◌, ◌⊎◌, [], ◌∷◌, ◌++◌, stop, exit_failure, length, Returns, arith,
}
use imr_dedupe.RingBuffer.{RingBuffer, insert, delete}
use imr_dedupe.RingBuffer.Queue.{IsValid, contents, insert-contents, delete-contents}

-- Its front is the last cell, so that the queue starts at cell 0.
abbrev window : RingBuffer
window = record { capacity = 3; front = 2; rear = 0; avg = 0; total = 0; ring_buffer = λ i. 7 + i }

window-IsValid : IsValid window
window-IsValid = record { front_in = omega arith; rear_in = omega arith }

insert-contents_example :
    ((insert window 9 ≡ stop exit_failure) × (suc (length (contents window)) ≡ window.capacity))
    ⊎ (Returns (insert window 9) λ h'.
        IsValid h' × (h'.capacity ≡ window.capacity) × (contents h' ≡ contents window ++ (9 ∷ [])))
insert-contents_example = insert-contents window 9 window-IsValid

delete-contents_example :
    ((delete window ≡ stop exit_failure) × (contents window ≡ []))
    ⊎ (Returns (delete window) λ r.
        IsValid r.1 × (r.1.capacity ≡ window.capacity) × (contents window ≡ r.0 ∷ contents r.1))
delete-contents_example = delete-contents window window-IsValid
