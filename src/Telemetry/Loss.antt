-- ===== src/Telemetry/Loss.antt =====
-- `Loss` and the destructor of src/EbpfTelemetry.cpp.
use elephant_shrew.Prelude.{ℕ, ◌≡◌, refl, true, false, Option, some}
use elephant_shrew.Telemetry.{Impl, Turn, finish_after_detach}

-- `TelemetryLoss`
pub record TelemetryLoss : Type 0 where
  pub decode_errors : ℕ
  pub queue_dropped : ℕ
  pub shutdown_discarded : ℕ
  pub poll_error : ℕ

-- `Loss`
unfoldable pub loss : Impl → TelemetryLoss
loss t = record {
  decode_errors = t.decode_errors;
  queue_dropped = t.queue_dropped;
  shutdown_discarded = t.shutdown_discarded;
  poll_error = t.poll_error;
}

-- the destructor, before it frees the members: the ring is not drained
unfoldable pub destroy : (ℕ → Turn) → Impl → Option (ℕ × Impl)
destroy script t = finish_after_detach 0 0 script 0 t

-- It returns without a turn of the drain, the counts are as they were, and the callback is shut out.
pub destroy-loss :
    (script : ℕ → Turn) (t : Impl)
    → t.finished ≡ false
    → (t' : Impl) × (destroy script t ≡ some (t.poll_error, t'))
      × (loss t' ≡ loss t)
      × (t'.abort ≡ true)
unfolding destroy finish_after_detach loss
destroy-loss script t h = (
  record t { abort = true; polling = false; finished = true },
  rw (destroy, finish_after_detach, h),
  refl,
  refl,
)
