-- ===== src/RingBuffer.antt =====
-- src/ring_buffer.c and include/ring_buffer.h: the window of the last request lengths.
-- The method pointers of the struct always hold the functions below.
pub mod Queue
use imr_dedupe.Prelude.{
  ℕ, ◌+◌, ◌%◌, Bool, ◌==◌, if◌then◌else◌, update, Outcome, ok, stop, exit_failure,
}

-- `avg` and `total` are read by the file attribute generator alone.
pub record RingBuffer : Type 0 where
  pub capacity : ℕ
  pub front : ℕ
  pub rear : ℕ
  pub avg : ℕ
  pub total : ℕ
  pub ring_buffer : ℕ → ℕ

abbrev pub ring_buffer_size : ℕ
ring_buffer_size = 1000

-- `malloc` succeeds; `total` is not written.
unfoldable pub init_ring_buffer : RingBuffer → RingBuffer
init_ring_buffer h = record {
  capacity = ring_buffer_size + 1;
  front = 0;
  rear = ring_buffer_size;
  avg = 0;
  total = h.total;
  ring_buffer = λ _. 0;
}

unfoldable pub is_empty : RingBuffer → Bool
is_empty h = h.front == h.rear

unfoldable pub is_full : RingBuffer → Bool
is_full h = h.front == (h.rear + 1) % h.capacity

unfoldable pub insert : RingBuffer → ℕ → Outcome RingBuffer
unfolding is_full
insert h len =
    let rear = (h.rear + 1) % h.capacity in
    if is_full h
    then stop exit_failure
    else ok (record h { rear = rear; ring_buffer = update h.ring_buffer rear len })

unfoldable pub delete : RingBuffer → Outcome (ℕ × RingBuffer)
unfolding is_empty
delete h =
    let front = (h.front + 1) % h.capacity in
    if is_empty h then stop exit_failure else ok (h.ring_buffer front, record h { front = front })

-- The head is never NULL.
unfoldable pub exit_ring_buffer : RingBuffer → RingBuffer
exit_ring_buffer h = record h { capacity = 0 }
