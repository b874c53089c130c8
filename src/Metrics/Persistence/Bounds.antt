-- ===== src/Metrics/Persistence/Bounds.antt =====
-- Bounds of the sample buffer, and its shutdown (src/modules/metrics/metrics-persistence.service.ts).
use order_lifecycle_backend.Prelude.{
  ℕ, zero, suc, ◌≡◌, ◌≤◌, refl, sym, ap, subst, ◌∙◌, ◌⊎◌, inl, inr, Bool, true, false, ◌&&◌, ◌||◌,
  List, [], ◌∷◌, ◌++◌, append-nil, arith, ◌==◌, leb, length, every, Bool-cases,
}
use order_lifecycle_backend.Metrics.Persistence.{
  MetricRow, BufferState, splice, send_batch, write_batch, flush_now, flush_ended, schedule,
  record_sample, flush_at_rows, max_buffered_rows, write_all, on_module_destroy,
}
use order_lifecycle_backend.Metrics.Persistence.Buffered.{
  BufferEvent, sampling, timing, insert_ending, advance, replay, held, sent_rows, write_batch-held,
  flush_ended-held, splice_bounded, splice_left,
}

abbrev pub is_small : List MetricRow → Bool
is_small batch = leb (length batch) flush_at_rows

-- The buffer has at most 50,000 rows and every batch at most 500; a batch and a timer are not
-- under way at once; and rows that wait have one of them to wait for.
pub record IsSafe (s : BufferState) : Type 0 where
  pub waiting : length s.buffer ≤ max_buffered_rows
  pub batches : every is_small s.sent ≡ true
  pub exclusive : (s.timer && s.flushing) ≡ false
  pub awaited : (length s.buffer ≡ 0) ⊎ ((s.timer || s.flushing) ≡ true)

length-snoc : (rows : List MetricRow) (r : MetricRow) → length (rows ++ r ∷ []) ≡ suc (length rows)
length-snoc [] r = refl
length-snoc (x ∷ rows) r = omega (arith, length-snoc rows r)

send_batch-small :
    (batch : List MetricRow) (sent : List (List MetricRow))
    → length batch ≤ flush_at_rows
    → every is_small sent ≡ true
    → every is_small (send_batch batch sent) ≡ true
send_batch-small [] sent h k = k
send_batch-small (r ∷ rows) sent h k = ground arith

flush_now-IsSafe :
    (s : BufferState)
    → length s.buffer ≤ max_buffered_rows
    → every is_small s.sent ≡ true
    → IsSafe (flush_now s)
unfolding flush_now write_batch
flush_now-IsSafe s h k = record {
  waiting = omega (arith, splice_left flush_at_rows s.buffer);
  batches =
      send_batch-small (splice flush_at_rows s.buffer).0 s.sent
        (splice_bounded flush_at_rows s.buffer) k;
  exclusive = refl;
  awaited = inr refl;
}

flush_ended-IsSafe :
    (s : BufferState)
    → length s.buffer ≤ max_buffered_rows
    → every is_small s.sent ≡ true
    → s.timer ≡ false
    → IsSafe (flush_ended s)
unfolding flush_ended
flush_ended-IsSafe s h k off = elim (Bool-cases (leb flush_at_rows (length s.buffer))) [
  | inl many ↦ rw many (flush_now-IsSafe (record s { flushing = false }) h k)
  | inr few ↦ elim (Bool-cases (length s.buffer == 0)) [
    | inl none_left ↦
        rw (few, none_left)
          (record {
            waiting = h;
            batches = k;
            exclusive = ground arith;
            awaited = inl (ground arith);
          })
    | inr some_left ↦
        rw (few, some_left)
          (record { waiting = h; batches = k; exclusive = refl; awaited = inr refl })
  ]
]

schedule-IsSafe :
    (s : BufferState)
    → length s.buffer ≤ max_buffered_rows
    → every is_small s.sent ≡ true
    → (s.timer && s.flushing) ≡ false
    → IsSafe (schedule s)
schedule-IsSafe s h k ex = elim (Bool-cases s.flushing) [
  | inl busy ↦ subst IsSafe (ground arith) (safe_as busy)
  | inr idle ↦ elim (Bool-cases (leb flush_at_rows (length s.buffer))) [
    | inl many ↦ subst IsSafe (ground arith) (flush_now-IsSafe s h k)
    | inr few ↦ subst IsSafe (ground arith) (timed idle)
  ]
]
  where
    safe_as : s.flushing ≡ true → IsSafe s
    safe_as busy = record { waiting = h; batches = k; exclusive = ex; awaited = inr (ground arith) }

    timed : s.flushing ≡ false → IsSafe (record s { timer = true })
    timed idle = record { waiting = h; batches = k; exclusive = ground arith; awaited = inr refl }

advance-IsSafe : (e : BufferEvent) (s : BufferState) → IsSafe s → IsSafe (advance e s)
unfolding advance record_sample
advance-IsSafe (sampling row) s h = elim (Bool-cases (leb max_buffered_rows (length s.buffer))) [
  | inl full ↦ rw full h
  | inr room ↦ rw room (
      schedule-IsSafe (record s { buffer = s.buffer ++ row ∷ [] })
        (ground (arith, length-snoc s.buffer row)) h.batches h.exclusive)
]
advance-IsSafe timing s h = elim (Bool-cases s.timer) [
  | inl set ↦ subst IsSafe (ground arith) (flush_now-IsSafe s h.waiting h.batches)
  | inr unset ↦ subst IsSafe (ground arith) h
]
advance-IsSafe insert_ending s h = elim (Bool-cases s.flushing) [
  | inl busy ↦
      subst IsSafe (ground arith) (flush_ended-IsSafe s h.waiting h.batches (not_timed busy))
  | inr idle ↦ subst IsSafe (ground arith) h
]
  where
    not_timed : s.flushing ≡ true → s.timer ≡ false
    not_timed busy = ground (arith, h.exclusive)

-- Whatever is recorded, however the timer and the INSERTs go, the buffer keeps to its bounds, and
-- no row waits without a timer or a batch under way that will send it.
pub replay-IsSafe : (es : List BufferEvent) (s : BufferState) → IsSafe s → IsSafe (replay es s)
unfolding replay
replay-IsSafe [] s h = h
replay-IsSafe (e ∷ es) s h = replay-IsSafe es (advance e s) (advance-IsSafe e s h)

-- A batch takes at least one row from a buffer that has some.
write_batch-shrinks :
    (s : BufferState) (fuel : ℕ) → length s.buffer ≤ suc fuel → length (write_batch s).buffer ≤ fuel
unfolding write_batch
write_batch-shrinks s fuel h = ground (arith, splice_shrinks s.buffer)
  where
    splice_shrinks :
        (rows : List MetricRow)
        → (rows ≡ []) ⊎ (suc (length (splice flush_at_rows rows).1) ≤ length rows)
    splice_shrinks [] = inl refl
    splice_shrinks (r ∷ rows) = inr (omega (arith, splice_left 499 rows))

empty_length : (rows : List MetricRow) → (length rows == 0) ≡ true → rows ≡ []
empty_length [] h = refl
empty_length (r ∷ rows) h = ground arith

write_all-held : (fuel : ℕ) (s : BufferState) → held (write_all fuel s) ≡ held s
write_all-held zero s = refl
write_all-held (suc fuel) s =
    ground (arith, write_all-held fuel (write_batch s), write_batch-held s)

write_all-ends :
    (fuel : ℕ) (s : BufferState) → length s.buffer ≤ fuel → (write_all fuel s).buffer ≡ []
write_all-ends zero s h = empty_length s.buffer (ground arith)
write_all-ends (suc fuel) s h = elim (Bool-cases (length s.buffer == 0)) [
  | inl none_left ↦ ground (arith, empty_length s.buffer none_left)
  | inr some_left ↦
      ground (arith, write_all-ends fuel (write_batch s) (write_batch-shrinks s fuel h))
]

flush_ended_left : (s : BufferState) → length (flush_ended s).buffer ≤ length s.buffer
unfolding flush_ended flush_now write_batch
flush_ended_left s = elim (Bool-cases (leb flush_at_rows (length s.buffer))) [
  | inl many ↦ rw many (splice_left flush_at_rows s.buffer)
  | inr few ↦ elim (Bool-cases (length s.buffer == 0)) [
    | inl none_left ↦ rw (few, none_left) (omega arith)
    | inr some_left ↦ rw (few, some_left) (omega arith)
  ]
]

write_all-sends :
    (fuel : ℕ) (s : BufferState)
    → length s.buffer ≤ fuel
    → ((write_all fuel s).buffer ≡ []) × (sent_rows (write_all fuel s).sent ≡ held s)
write_all-sends fuel s h = (
  write_all-ends fuel s h,
  sym (append-nil (sent_rows (write_all fuel s).sent))
      ∙ ap (λ rows. sent_rows (write_all fuel s).sent ++ rows) (sym (write_all-ends fuel s h))
      ∙ write_all-held fuel s,
)

-- A shutdown, with a round for every row that waits, ends with an empty buffer, and every row
-- that was sent before or waited has then been sent, in order.
pub on_module_destroy-sends :
    (fuel : ℕ) (s : BufferState)
    → length s.buffer ≤ fuel
    → ((on_module_destroy fuel s).buffer ≡ [])
      × (sent_rows (on_module_destroy fuel s).sent ≡ held s)
unfolding on_module_destroy
on_module_destroy-sends fuel s h = elim (Bool-cases s.flushing) [
  | inl busy ↦ ground (
    arith,
    write_all-sends fuel (flush_ended stopped) (omega (arith, flush_ended_left stopped)),
    flush_ended-held stopped,
  )
  | inr idle ↦ ground (arith, write_all-sends fuel stopped h)
]
  where
    stopped : BufferState
    stopped = record s { timer = false }
