-- ===== src/Telemetry/Tests.antt =====
-- A telemetry object with room for one record, from its making to its end.
use elephant_shrew.Prelude.{ℕ, ◌≡◌, refl, true, false, List, [], ◌∷◌, none, some, arith}
use elephant_shrew.Abi.Layout.{store_event, load_event, store_tuple, load_tuple}
use elephant_shrew.Decoder.{decode_event, check_event}
use elephant_shrew.Decoder.Tests.{segment}
use elephant_shrew.Queue.{make_queue, try_push}
use elephant_shrew.Queue.Refine.{make_queue-Holds}
use elephant_shrew.Telemetry.{
  TelemetryRecord, Source, count, error, eintr, Impl, Delivery, enqueue, on_event, make_telemetry,
  Turn, PollTurn, poll, finish_after_detach,
}
use elephant_shrew.Telemetry.Account.{Balance}
use elephant_shrew.Telemetry.Run.{made, delivered, Ran-Balance}
use elephant_shrew.Telemetry.Finish.{
  IsUsable, Shut, finish_after_detach_total, poll_total, finish_after_detach-Shut,
}

abbrev pub blank : TelemetryRecord
blank = record { event = segment; netns_inode = 0; session_id = 0 }

abbrev pub source : Source
source = record { ifindex = 3; netns_inode = 7; session_id = 9 }

abbrev packet : Delivery
packet = record { now = 5; source = source; bytes = some (store_event segment); size = 216 }

abbrev noise : Delivery
noise = record { now = 6; source = source; bytes = none; size = 216 }

abbrev received : TelemetryRecord
received = record { event = segment; netns_inode = 7; session_id = 9 }

abbrev pub fresh : Impl
fresh = record {
  queue = record { slots = blank ∷ blank ∷ []; head = 0; tail = 0 };
  sources = [];
  ring = false;
  polling = false;
  abort = false;
  deadline_ns = 0;
  decode_errors = 0;
  queue_dropped = 0;
  shutdown_discarded = 0;
  poll_error = 0;
  started = false;
  finished = false;
}

abbrev filled : Impl
filled = record fresh { queue = record { slots = received ∷ blank ∷ []; head = 1; tail = 0 } }

pub make-fresh : make_telemetry blank 1 ≡ some fresh
unfolding make_telemetry make_queue
make-fresh = refl

on_event-packet : on_event packet fresh ≡ some (count 0, filled)
unfolding on_event enqueue decode_event check_event load_event store_event load_tuple store_tuple
    try_push
on_event-packet = refl

on_event-noise : on_event noise filled ≡ some (count 0, record filled { decode_errors = 1 })
unfolding on_event enqueue decode_event
on_event-noise = refl

Ran-Balance_example :
    (xs : List TelemetryRecord) × Balance 1
      (packet ∷ noise ∷ [])
      []
      xs
      (record filled { decode_errors = 1 })
Ran-Balance_example =
    Ran-Balance
      (delivered (delivered (made blank make-fresh) packet on_event-packet) noise on_event-noise)
      (omega arith)

make-fresh_queue : make_queue blank 1 ≡ some fresh.queue
unfolding make_queue
make-fresh_queue = refl

fresh-IsUsable : IsUsable 1 fresh
fresh-IsUsable = ([], make_queue-Holds blank 1 make-fresh_queue)

-- two turns: an interrupted one and a noisy one
abbrev script : ℕ → Turn
script n = record { now = 1000000; deliveries = noise ∷ []; code = error eintr }

finish_after_detach_total_example :
    (r : ℕ × Impl) × (finish_after_detach 3 0 script 1 fresh ≡ some r)
finish_after_detach_total_example =
    finish_after_detach_total 2 3 0 1 script fresh fresh-IsUsable (omega arith) (omega arith)

abbrev watched : ℕ → PollTurn
watched n = record { signalled = true; deliveries = packet ∷ []; code = count 1 }

poll_total_example : (t : Impl) × (poll 2 watched fresh ≡ some t)
poll_total_example = poll_total 0 2 watched fresh fresh-IsUsable refl (omega arith)

abbrev ended : Impl
ended = record fresh { abort = true; finished = true }

finish-fresh : finish_after_detach 3 0 script 0 fresh ≡ some (0, ended)
unfolding finish_after_detach
finish-fresh = refl

finish_after_detach-Shut_example : Shut (0, ended)
finish_after_detach-Shut_example = finish_after_detach-Shut 3 0 0 script fresh refl finish-fresh
