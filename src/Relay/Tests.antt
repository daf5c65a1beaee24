-- ===== src/Relay/Tests.antt =====
-- One frame, from the interface to the sink.
use elephant_shrew.Prelude.{◌≡◌, refl, List, [], ◌∷◌, some, arith}
use elephant_shrew.Abi.Layout.{store_event, load_event, store_tuple, load_tuple}
use elephant_shrew.Decoder.{decode_event, check_event}
use elephant_shrew.Queue.{try_push, try_pop}
use elephant_shrew.Abi.{ingress}
use elephant_shrew.Observer.Sampling.{zero_counters}
use elephant_shrew.Observer.Cpus.{Maps, store_maps}
use elephant_shrew.Observer.Tests.{
  no_flows, env, classifying, shrew_skb, shrew_event, shrew_seen, observe-shrew, shrew_skb-IsSkb,
}
use elephant_shrew.Telemetry.{
  TelemetryRecord, Impl, Delivery, count, enqueue, on_event, take_record,
}
use elephant_shrew.Telemetry.Run.{made, delivered, taken}
use elephant_shrew.Telemetry.Tests.{blank, source, fresh, make-fresh}
use elephant_shrew.Relay.{telemetry_of, attached, observed, waiting, relayed}
use elephant_shrew.Relay.Conserved.{Conserved, Watched-Conserved}

abbrev delivery : Delivery
delivery = record { now = 5; source = source; bytes = some (store_event shrew_event); size = 216 }

abbrev queued : Impl
queued = record fresh {
  queue = record { slots = telemetry_of source shrew_event ∷ blank ∷ []; head = 1; tail = 0 };
}

abbrev emptied : Impl
emptied = record fresh {
  queue = record { slots = telemetry_of source shrew_event ∷ blank ∷ []; head = 1; tail = 1 };
}

on_event-shrew : on_event delivery fresh ≡ some (count 0, queued)
unfolding on_event enqueue decode_event check_event load_event store_event load_tuple store_tuple
    try_push
on_event-shrew = refl

take_record-shrew : take_record queued ≡ some (some (telemetry_of source shrew_event), emptied)
unfolding take_record try_pop
take_record-shrew = refl

-- after the frame
abbrev maps : Maps (Unit {0})
maps =
    store_maps env.cpu 0
      (record zero_counters { packets = 1; bytes = 74; selected = 1; events = 1 }) tt
      (record { counters = λ i j. zero_counters; flows = λ i. tt })

Watched-Conserved_example :
    (xs : List TelemetryRecord) × Conserved classifying source 8
      ((env.cpu, 0) ∷ [])
      (shrew_event ∷ [])
      maps
      1
      (delivery ∷ [])
      (telemetry_of source shrew_event ∷ [])
      xs
      emptied
Watched-Conserved_example =
    Watched-Conserved no_flows source
      (observed (attached (λ i. tt)) ingress shrew_skb env shrew_seen _ shrew_skb-IsSkb
        (record { now_word = omega arith; cpu_word = omega arith }) (omega arith) refl observe-shrew
        refl)
      (omega arith) (relayed 5 shrew_event (waiting []))
      (taken (delivered (made blank make-fresh) delivery on_event-shrew) (some _) take_record-shrew)
