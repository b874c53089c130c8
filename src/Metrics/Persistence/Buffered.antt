-- ===== src/Metrics/Persistence/Buffered.antt =====
-- What becomes of the recorded samples (src/modules/metrics/metrics-persistence.service.ts): the
-- buffer's bound, and the order of the rows that are sent.
use order_lifecycle_backend.Prelude.{
  ℕ, zero, suc, ◌≡◌, ◌≤◌, refl, sym, ap, ◌∙◌, inl, inr, false, List, [], ◌∷◌, ◌++◌, append-nil,
  append_assoc, arith, ◌==◌, leb, if◌then◌else◌, length, Bool-cases,
}
use order_lifecycle_backend.Metrics.Persistence.{
  MetricRow, BufferState, splice, send_batch, write_batch, flush_now, flush_ended, schedule,
  record_sample, flush_at_rows, max_buffered_rows,
}

-- What happens to the service: a sample is recorded, the timer fires, an INSERT ends.
pub data BufferEvent : Type 0 where
  sampling : MetricRow → BufferEvent
  timing insert_ending : BufferEvent

-- The timer is only set while no batch is being written, and only a batch's INSERT can end.
unfoldable pub advance : BufferEvent → BufferState → BufferState
advance (sampling row) s = record_sample row s
advance timing s = if s.timer then flush_now s else s
advance insert_ending s = if s.flushing then flush_ended s else s

unfoldable pub replay : List BufferEvent → BufferState → BufferState
replay [] s = s
replay (e ∷ es) s = replay es (advance e s)

-- The rows of the batches, oldest batch first.
abbrev pub sent_rows : List (List MetricRow) → List MetricRow
sent_rows [] = []
sent_rows (batch ∷ batches) = sent_rows batches ++ batch

-- Every row that has been sent or waits, in order.
abbrev pub held : BufferState → List MetricRow
held s = sent_rows s.sent ++ s.buffer

splice-append : (n : ℕ) (rows : List MetricRow) → (splice n rows).0 ++ (splice n rows).1 ≡ rows
splice-append zero rows = refl
splice-append (suc n) [] = refl
splice-append (suc n) (r ∷ rows) = ap (λ rest. r ∷ rest) (splice-append n rows)

pub splice_bounded : (n : ℕ) (rows : List MetricRow) → length (splice n rows).0 ≤ n
splice_bounded zero rows = omega arith
splice_bounded (suc n) [] = omega arith
splice_bounded (suc n) (r ∷ rows) = omega (arith, splice_bounded n rows)

pub splice_left : (n : ℕ) (rows : List MetricRow) → length (splice n rows).1 ≤ length rows
splice_left zero rows = omega arith
splice_left (suc n) [] = omega arith
splice_left (suc n) (r ∷ rows) = omega (arith, splice_left n rows)

sent_rows-send_batch :
    (batch : List MetricRow) (sent : List (List MetricRow))
    → sent_rows (send_batch batch sent) ≡ sent_rows sent ++ batch
sent_rows-send_batch [] sent = sym (append-nil (sent_rows sent))
sent_rows-send_batch (r ∷ rows) sent = refl

-- Writing a batch moves rows from the buffer to the batches, and changes nothing held.
pub write_batch-held : (s : BufferState) → held (write_batch s) ≡ held s
unfolding write_batch
write_batch-held s =
    ap (λ rows. rows ++ (splice flush_at_rows s.buffer).1)
      (sent_rows-send_batch (splice flush_at_rows s.buffer).0 s.sent)
    ∙ append_assoc (sent_rows s.sent) (splice flush_at_rows s.buffer).0 _
    ∙ ap (λ rows. sent_rows s.sent ++ rows) (splice-append flush_at_rows s.buffer)

flush_now-held : (s : BufferState) → held (flush_now s) ≡ held s
unfolding flush_now
flush_now-held s = write_batch-held s

pub flush_ended-held : (s : BufferState) → held (flush_ended s) ≡ held s
unfolding flush_ended
flush_ended-held s = elim (Bool-cases (leb flush_at_rows (length s.buffer))) [
  | inl many ↦ rw many (flush_now-held (record s { flushing = false }))
  | inr few ↦ elim (Bool-cases (length s.buffer == 0)) [
    | inl none_left ↦ rw (few, none_left) refl
    | inr some_left ↦ rw (few, some_left) refl
  ]
]

schedule-held : (s : BufferState) → held (schedule s) ≡ held s
schedule-held s = elim (Bool-cases s.flushing) [
  | inl busy ↦ ground arith
  | inr idle ↦ elim (Bool-cases (leb flush_at_rows (length s.buffer))) [
    | inl many ↦ ground (arith, flush_now-held s)
    | inr few ↦ ground arith
  ]
]

-- What a sample adds to the rows: nothing, if the buffer is full.
abbrev pub kept_of : BufferEvent → BufferState → List MetricRow
kept_of (sampling row) s = if leb max_buffered_rows (length s.buffer) then [] else row ∷ []
kept_of timing s = []
kept_of insert_ending s = []

-- The samples that a run of events has kept, in the order of their recording.
abbrev pub kept_samples : List BufferEvent → BufferState → List MetricRow
kept_samples [] s = []
kept_samples (e ∷ es) s = kept_of e s ++ kept_samples es (advance e s)

advance-held : (e : BufferEvent) (s : BufferState) → held (advance e s) ≡ held s ++ kept_of e s
unfolding advance record_sample
advance-held (sampling row) s = elim (Bool-cases (leb max_buffered_rows (length s.buffer))) [
  | inl full ↦ rw full (sym (append-nil (held s)))
  | inr room ↦ rw room (
      schedule-held (record s { buffer = s.buffer ++ row ∷ [] })
      ∙ sym (append_assoc (sent_rows s.sent) s.buffer (row ∷ [])))
]
advance-held timing s = elim (Bool-cases s.timer) [
  | inl set ↦ ground (arith, flush_now-held s, append-nil (held s))
  | inr unset ↦ ground (arith, append-nil (held s))
]
advance-held insert_ending s = elim (Bool-cases s.flushing) [
  | inl busy ↦ ground (arith, flush_ended-held s, append-nil (held s))
  | inr idle ↦ ground (arith, append-nil (held s))
]

-- After any events, the rows that have been sent, batch by batch, followed by those that wait are
-- what was there before followed by the recorded samples in their order: each once, and none lost
-- but those that came while 50,000 were waiting.
pub replay-held :
    (es : List BufferEvent) (s : BufferState) → held (replay es s) ≡ held s ++ kept_samples es s
unfolding replay
replay-held [] s = sym (append-nil (held s))
replay-held (e ∷ es) s =
    replay-held es (advance e s)
    ∙ ap (λ rows. rows ++ kept_samples es (advance e s)) (advance-held e s)
    ∙ append_assoc (held s) (kept_of e s) (kept_samples es (advance e s))
