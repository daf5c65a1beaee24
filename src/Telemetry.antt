-- ===== src/Telemetry.antt =====
-- src/EbpfTelemetry.cpp: ring records into the queue, and the life of the poller. libbpf is a
-- parameter: what a poll or a consume hands to the callback, in order, and the code that it returns.
pub mod Account
pub mod Run
pub mod Finish
pub mod Loss
pub mod Tests
use mathlib.Core.Option
use elephant_shrew.Prelude.{
  ℕ, zero, suc, ◌+◌, ◌*◌, ◌≡◌, Bool, true, false, not, ◌&&◌, ◌||◌, List, [], ◌∷◌, ◌++◌, Option,
  none, some, add64, ltb, leb, ◌==◌, if◌then◌else◌, ◌>>=◌,
}
use elephant_shrew.Abi.{Event}
use elephant_shrew.Decoder.{decode_event}
use elephant_shrew.Queue.{Queue, make_queue, try_push, try_pop}

-- `TelemetryRecord`
pub record TelemetryRecord : Type 0 where
  pub event : Event
  pub netns_inode : ℕ
  pub session_id : ℕ

-- `Impl::Source`, without the pointer back
pub record Source : Type 0 where
  pub ifindex : ℕ
  pub netns_inode : ℕ
  pub session_id : ℕ

-- an `int` that is a count, or minus an error number
pub data Code : Type 0 where
  count : ℕ → Code
  error : ℕ → Code

abbrev pub eintr : ℕ
eintr = 4

abbrev pub ecanceled : ℕ
ecanceled = 125

abbrev pub enomem : ℕ
enomem = 12

-- `Impl`. `ring` and `polling` say that the ring and the poller are there; `poll_error` is the error
-- number, 0 for none.
pub record Impl : Type 0 where
  pub queue : Queue TelemetryRecord
  pub sources : List Source
  pub ring : Bool
  pub polling : Bool
  pub abort : Bool
  pub deadline_ns : ℕ
  pub decode_errors : ℕ
  pub queue_dropped : ℕ
  pub shutdown_discarded : ℕ
  pub poll_error : ℕ
  pub started : Bool
  pub finished : Bool

-- the constructor; `blank` is a record with all its fields 0
unfoldable pub make_telemetry : TelemetryRecord → ℕ → Option Impl
make_telemetry blank capacity =
    Option.map
      (λ queue. record {
        queue = queue;
        sources = [];
        ring = false;
        polling = false;
        abort = false;
        deadline_ns = 0;
        decode_errors = 0;
        queue_dropped = 0;
        shutdown_discarded = 0;
        poll_error = 0;
        started = false;
        finished = false;
      })
      (make_queue blank capacity)

-- one call of the callback: the time then, the source that is its context, the data
pub record Delivery : Type 0 where
  pub now : ℕ
  pub source : Source
  pub bytes : Option (List ℕ)
  pub size : ℕ

abbrev pub is_over : Impl → ℕ → Bool
is_over t now = t.abort || not (t.deadline_ns == 0) && leb t.deadline_ns now

-- a record that the check of `DecodeEvent` let through, or not
unfoldable pub enqueue : Source → Option Event → Impl → Option (Code × Impl)
enqueue source none t = some (count 0, record t { decode_errors = add64 t.decode_errors 1 })
enqueue source (some e) t =
    if not (e.ifindex == source.ifindex)
    then some (count 0, record t { decode_errors = add64 t.decode_errors 1 })
    else Option.map
        (λ r. (
          count 0,
          record t {
            queue = r.1;
            queue_dropped = if r.0 then t.queue_dropped else add64 t.queue_dropped 1;
          },
        ))
        (try_push
          (record { event = e; netns_inode = source.netns_inode; session_id = source.session_id })
          t.queue)

-- `OnEvent`; `none` only where the queue writes outside of its slots
unfoldable pub on_event : Delivery → Impl → Option (Code × Impl)
on_event d t =
    if is_over t d.now
    then some (error ecanceled, record t { shutdown_discarded = add64 t.shutdown_discarded 1 })
    else enqueue d.source (decode_event d.bytes d.size) t

unfoldable pub deliver : List Delivery → Impl → Option Impl
deliver [] t = some t
deliver (d ∷ ds) t = do (code, t') ← on_event d t; deliver ds t'

-- `TryPop`
unfoldable pub take_record : Impl → Option (Option TelemetryRecord × Impl)
take_record t = Option.map (λ r. (r.0, record t { queue = r.1 })) (try_pop t.queue)

-- the result of a lifecycle call: the exception that it throws, if any
pub data CallResult : Type 0 where
  done : CallResult
  invalid_argument : CallResult
  logic_error : CallResult
  system_error : ℕ → CallResult

-- What libbpf answers to a registration: `errno` if `ring_buffer__new` gives a null pointer, and the
-- error of `ring_buffer__add`, 0 for none.
pub record Registrar : Type 0 where
  pub new_fails : Option ℕ
  pub add_error : ℕ

abbrev pub register_error : Registrar → Impl → ℕ
register_error r t =
    if not t.ring
    then elim r.new_fails [ none ↦ 0 | some errno ↦ if errno == 0 then enomem else errno ]
    else r.add_error

-- `AddSource`; `valid_fd` is `fd >= 0`
unfoldable pub add_source : Registrar → Bool → Source → Impl → CallResult × Impl
add_source r valid_fd source t =
    let rc = register_error r t in
    if t.started || t.finished || not valid_fd || source.ifindex == 0
    then (invalid_argument, t)
    else if not (rc == 0)
    then (system_error rc, t)
    else (done, record t { sources = t.sources ++ source ∷ []; ring = true })

-- `Start`; `thread_error` is the error of the thread's creation, 0 for none
unfoldable pub start : ℕ → Impl → CallResult × Impl
start thread_error t =
    if not t.ring || t.started || t.finished
    then (logic_error, t)
    else if not (thread_error == 0)
    then (system_error thread_error, t)
    else (done, record t { polling = true; started = true })

-- One turn of a loop: the time that its check reads, what libbpf delivers, what it returns.
pub record Turn : Type 0 where
  pub now : ℕ
  pub deliveries : List Delivery
  pub code : Code

-- the `if`s after `ring_buffer__consume`; `again` is the rest of the loop
unfoldable pub after_consume : Code → Option Impl → Impl → Option Impl
after_consume (count zero) again t = some t
after_consume (count (suc n)) again t = again
after_consume (error e) again t =
    if e == eintr
    then again
    else if e == ecanceled
    then some t
    else some (record t { poll_error = e })

-- the loop that drains the ring, on fuel
unfoldable pub drain : ℕ → (ℕ → Turn) → Impl → Option Impl
drain zero script t = none
drain (suc fuel) script t =
    let turn = script zero in
    if leb t.deadline_ns turn.now then some t else (do
      t' ← deliver turn.deliveries t
      let again = drain fuel (λ n. script (suc n)) t'
      after_consume turn.code again t')

-- One turn of the poller. `signalled`: another thread stores true in `abort` after the test of the
-- `while` and before the poll returns.
pub record PollTurn : Type 0 where
  pub signalled : Bool
  pub deliveries : List Delivery
  pub code : Code

-- the `if`s after `ring_buffer__poll`
unfoldable pub after_poll : Code → Option Impl → Impl → Option Impl
after_poll (count n) again t = again
after_poll (error e) again t =
    if e == eintr
    then again
    else if e == ecanceled && t.abort
    then some t
    else some (record t { poll_error = e })

-- the thread that `Start` makes, on fuel
unfoldable pub poll : ℕ → (ℕ → PollTurn) → Impl → Option Impl
poll zero script t = none
poll (suc fuel) script t =
    let turn = script zero in
    if t.abort then some t else (do
      t' ← deliver turn.deliveries (record t { abort = turn.signalled })
      let again = poll fuel (λ n. script (suc n)) t'
      after_poll turn.code again t')

abbrev pub clamp_ms : ℕ → ℕ
clamp_ms ms = if ltb 60000 ms then 60000 else ms

abbrev pub close : Impl → ℕ × Impl
close t = (t.poll_error, record t { abort = true; finished = true })

-- `FinishAfterDetach`, from the join of the poller on; a negative timeout acts as 0. `now` is the time
-- that the deadline is counted from.
unfoldable pub finish_after_detach : ℕ → ℕ → (ℕ → Turn) → ℕ → Impl → Option (ℕ × Impl)
finish_after_detach fuel now script timeout t =
    let ms = clamp_ms timeout in
    let joined = record t { abort = true; polling = false } in
    if t.finished
    then some (t.poll_error, t)
    else if ltb 0 ms && t.ring
    then Option.map close (
        drain fuel script (record joined { deadline_ns = add64 now (ms * 1000000); abort = false }))
    else some (close joined)
