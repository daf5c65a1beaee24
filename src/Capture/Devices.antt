-- ===== src/Capture/Devices.antt =====
-- The list of devices to close keeps up with the devices that are open, on every path of `Init`.
use elephant_shrew.Prelude.{
  ℕ, ◌≡◌, sym, ap, ◌∙◌, ◌⊎◌, inl, inr, Bool, true, false, ◌&&◌, ◌||◌, List, [], ◌∷◌, ◌++◌, Option,
  none, some, ◌==◌, ==_iff, arith, if◌then◌else◌, Bool-cases, Option-cases,
}
use elephant_shrew.Config.{Text, CaptureOptions, RoutingOptions, RuntimeConfig}
use elephant_shrew.Store.Connect.{Refusal}
use elephant_shrew.Receiver.{
  PcapDirection, pcpp_in, pcpp_inout, Pcap, Receiver, Failure, receive, stop, route_is_closed,
}
use elephant_shrew.Capture.{
  Fault, Shrew, Result, ok, err, not_opened, not_receiving, store_refused, M, after, ◌>>=◌, ◌>>◌,
  contains, give, resolve_capture_device, open_device, track_opened_device, acquire, start_receiver,
  capture_on, capture_all, route_traffic, set_up,
}

-- What is relied on of the devices: a device is open after an open that succeeds, is closed by a close,
-- and nothing else opens or closes a device.
pub record IsLawful {W : Type 0} (pcap : Pcap W) : Type 0 where
  pub opens :
      (d e : ℕ) (dir : PcapDirection) (w : W)
      → pcap.is_opened e (pcap.open_device d dir w).1
        ≡ (if (pcap.open_device d dir w).0 && (e == d) then true else pcap.is_opened e w)
  pub closes :
      (d e : ℕ) (w : W)
      → pcap.is_opened e (pcap.close d w) ≡ (if e == d then false else pcap.is_opened e w)
  pub starts : (d e : ℕ) (w : W) → pcap.is_opened e (pcap.start_capture d w).1 ≡ pcap.is_opened e w
  pub stops : (d e : ℕ) (w : W) → pcap.is_opened e (pcap.stop_capture d w) ≡ pcap.is_opened e w

contains-append : (ds : List ℕ) (d e : ℕ) → contains (ds ++ d ∷ []) e ≡ (contains ds e || d == e)
contains-append [] d e = ground arith
contains-append (x ∷ ds) d e = ground (arith, contains-append ds d e)

module _ {W A B : Type 0} (m : M W A) (f : A → M W B) {s s' : Shrew W} where
  pub >>=_of_ok : (a : A) → m s ≡ (ok a, s') → (m >>= f) s ≡ f a s'
  >>=_of_ok a e = ap (after f) e

  pub >>=_of_err : (x : Fault) → m s ≡ (err x, s') → (m >>= f) s ≡ (err x, s')
  >>=_of_err x e = ap (after f) e

module _ {W : Type 0} (pcap : Pcap W) (lawful : IsLawful pcap) (before : W) where
  -- a device that is open now was open before, or is on the list to be closed
  abbrev pub Tracked : List ℕ → W → Type 0
  Tracked ds w =
      (e : ℕ)
      → pcap.is_opened e w ≡ true
      → (pcap.is_opened e before ≡ true) ⊎ (contains ds e ≡ true)

  abbrev pub IsTracked : Shrew W → Type 0
  IsTracked s = Tracked s.opened_devices s.world

  -- a step that keeps it so, whether it returns or throws
  abbrev pub Keeps : {A : Type 0} → M W A → Type 0
  Keeps m = (s : Shrew W) → IsTracked s → IsTracked (m s).1

  bind-Keeps :
      {A B : Type 0} (m : M W A) (f : A → M W B)
      → Keeps m
      → ((a : A) → Keeps (f a))
      → Keeps (m >>= f)
  bind-Keeps {A} {B} m f k h s v = go (m s) (k s v)
    where
      go : (r : Result A × Shrew W) → IsTracked r.1 → IsTracked (after f r).1
      go (ok a, s') v = h a s' v
      go (err e, s') v = v

  -- tracking a device that may have been opened just now
  track_opened_device-IsTracked :
      (d : ℕ) (s : Shrew W)
      → ((e : ℕ)
          → pcap.is_opened e s.world ≡ true
          → (pcap.is_opened e before ≡ true) ⊎ ((contains s.opened_devices e ≡ true) ⊎ (d ≡ e)))
      → IsTracked (track_opened_device pcap d s).1
  unfolding track_opened_device
  track_opened_device-IsTracked d s v = elim (Bool-cases (contains s.opened_devices d)) [
    | inl p ↦ rw p (λ e h. elim (v e h) [
      | inl b ↦ inl b
      | inr (inl c) ↦ inr c
      | inr (inr q) ↦ inr (rw (← q) p)
    ])
    | inr p ↦ rw p (λ e h. elim (v e h) [
      | inl b ↦ inl b
      | inr (inl c) ↦ inr (contains-append s.opened_devices d e ∙ rw c)
      | inr (inr q) ↦ inr (contains-append s.opened_devices d e ∙ ground arith)
    ])
  ]

  open_then_track :
      (d : ℕ) (dir : PcapDirection) (s : Shrew W)
      → ((pcap.is_opened d s.world ≡ true) × (acquire pcap d dir s ≡ track_opened_device pcap d s))
        ⊎ (((pcap.open_device d dir s.world).0 ≡ true)
            × (acquire pcap d dir s
                ≡ track_opened_device pcap d
                    (record s { world = (pcap.open_device d dir s.world).1 })))
        ⊎ (((pcap.open_device d dir s.world).0 ≡ false)
            × ((acquire pcap d dir s).1 ≡ record s { world = (pcap.open_device d dir s.world).1 }))
  unfolding acquire open_device
  open_then_track d dir s = elim (Bool-cases (pcap.is_opened d s.world)) [
    | inl p ↦ inl (
      p,
      >>=_of_ok (open_device pcap d dir) (λ _. track_opened_device pcap d) tt (rw (p, open_device)),
    )
    | inr p ↦ elim (Bool-cases (pcap.open_device d dir s.world).0) [
      | inl q ↦ inr (
          inl (
            q,
            >>=_of_ok (open_device pcap d dir) (λ _. track_opened_device pcap d) tt
                (rw (p, q, open_device)),
          ))
      | inr q ↦ inr (
          inr (
            q,
            ap (λ (r : Result (Unit {0}) × Shrew W). r.1)
                (>>=_of_err (open_device pcap d dir) (λ _. track_opened_device pcap d) not_opened
                  (rw (p, q, open_device))),
          ))
    ]
  ]

  acquire-Keeps : (d : ℕ) (dir : PcapDirection) → Keeps (acquire pcap d dir)
  acquire-Keeps d dir s v = elim (open_then_track d dir s) [
    | inl (p, q) ↦ rw q (
        track_opened_device-IsTracked d s
          (λ e h. elim (v e h) [ inl b ↦ inl b | inr c ↦ inr (inl c) ]))
    | inr (inl (p, q)) ↦
        let s' : Shrew W = record s { world = (pcap.open_device d dir s.world).1 } in
        rw q (
          track_opened_device-IsTracked d s'
            (λ e h. opened e (rw (lawful.opens d e dir s.world, p) at h)))
    | inr (inr (p, q)) ↦ rw q (λ e h. v e (rw (lawful.opens d e dir s.world, p) at h))
  ]
    where
      opened :
          (e : ℕ)
          → (if e == d then true else pcap.is_opened e s.world) ≡ true
          → (pcap.is_opened e before ≡ true) ⊎ ((contains s.opened_devices e ≡ true) ⊎ (d ≡ e))
      opened e h = elim (Bool-cases (e == d)) [
        | inl q ↦ inr (inr (sym ((==_iff e d).0 q)))
        | inr q ↦ elim (v e (rw q at h)) [ inl b ↦ inl b | inr c ↦ inr (inl c) ]
      ]

  receive-world :
      (r : Receiver) (w : W) (e : ℕ) → pcap.is_opened e (receive pcap r w).2 ≡ pcap.is_opened e w
  unfolding receive
  receive-world r w e = elim (Option-cases r.device) [
    | inl p ↦ rw (p, receive)
    | inr (d, p) ↦ elim (Bool-cases (pcap.is_opened d w)) [
      | inr q ↦ rw (p, q, receive)
      | inl q ↦ elim (Bool-cases (route_is_closed pcap r.route_device w)) [
        | inl c ↦ rw (p, q, c, receive)
        | inr c ↦ elim (Bool-cases (pcap.start_capture d w).0) [
          | inl t ↦ rw (p, q, c, t, receive) (lawful.starts d e w)
          | inr t ↦ rw (p, q, c, t, receive) (lawful.starts d e w)
        ]
      ]
    ]
  ]

  pub stop-world :
      (r : Receiver) (w : W) (e : ℕ) → pcap.is_opened e (stop pcap r w).1 ≡ pcap.is_opened e w
  unfolding stop
  stop-world r w e = elim (Option-cases r.device) [
    | inl p ↦ rw (p, stop)
    | inr (d, p) ↦ elim (Bool-cases r.capturing) [
      | inl q ↦ rw (p, q, stop) (lawful.stops d e w)
      | inr q ↦ rw (p, q, stop)
    ]
  ]

  start_receiver-Keeps :
      (c : CaptureOptions) (d : ℕ) (route : Option ℕ) → Keeps (start_receiver pcap c d route)
  unfolding start_receiver
  start_receiver-Keeps c d route s v =
      let r : Receiver = record {
        store = c.record_packets;
        device = some d;
        route_device = route;
        record_packets = c.record_packets;
        debug_packets = c.debug_packets;
        capturing = false;
      } in
      go (receive pcap r s.world).0 (receive pcap r s.world).1 (receive pcap r s.world).2
        (receive-world r s.world)
    where
      started : Option Failure → Receiver → W → Result (Unit {0}) × Shrew W
      started failed r w = elim failed [
        | some f ↦ (err (not_receiving f), record s { world = w })
        | none ↦ (ok tt, record s { receivers = s.receivers ++ r ∷ []; world = w })
      ]

      go :
          (failed : Option Failure) (r : Receiver) (w : W)
          → ((e : ℕ) → pcap.is_opened e w ≡ pcap.is_opened e s.world)
          → IsTracked (started failed r w).1
      go (some f) r w same e h = v e (sym (same e) ∙ h)
      go none r w same e h = v e (sym (same e) ∙ h)

  give-Keeps : {A : Type 0} (r : Result A) → Keeps (give pcap r)
  give-Keeps r s v = v

  then-Keeps : {B : Type 0} (m : M W (Unit {0})) (k : M W B) → Keeps m → Keeps k → Keeps (m >> k)
  then-Keeps m k km kk = bind-Keeps m (λ _. k) km (λ _. kk)

  resolved-Keeps :
      {B : Type 0} (iface : Text) (f : ℕ → M W B)
      → ((d : ℕ) → Keeps (f d))
      → Keeps (give pcap (resolve_capture_device pcap iface) >>= f)
  resolved-Keeps iface f h =
      bind-Keeps (give pcap (resolve_capture_device pcap iface)) f
        (give-Keeps (resolve_capture_device pcap iface)) h

  capture_on-Keeps : (c : CaptureOptions) (iface : Text) → Keeps (capture_on pcap c iface)
  unfolding capture_on
  capture_on-Keeps c iface =
      resolved-Keeps iface (λ d. acquire pcap d pcpp_inout >> start_receiver pcap c d none)
        (λ d.
          then-Keeps (acquire pcap d pcpp_inout) (start_receiver pcap c d none)
            (acquire-Keeps d pcpp_inout) (start_receiver-Keeps c d none))

  capture_all-Keeps : (c : CaptureOptions) (ifaces : List Text) → Keeps (capture_all pcap c ifaces)
  unfolding capture_all
  capture_all-Keeps c [] = give-Keeps (ok tt)
  capture_all-Keeps c (i ∷ is) =
      then-Keeps (capture_on pcap c i) (capture_all pcap c is) (capture_on-Keeps c i)
        (capture_all-Keeps c is)

  abbrev bridge : CaptureOptions → ℕ → ℕ → Bool → M W (Unit {0})
  bridge c i e both =
      acquire pcap i pcpp_in
      >> (acquire pcap e pcpp_in
          >> (start_receiver pcap c i (some e)
              >> (if both then start_receiver pcap c e (some i) else give pcap (ok tt))))

  route_traffic-Keeps : (c : CaptureOptions) (r : RoutingOptions) → Keeps (route_traffic pcap c r)
  unfolding route_traffic
  route_traffic-Keeps c r =
      resolved-Keeps r.ingress_iface
        (λ i. give pcap (resolve_capture_device pcap r.egress_iface) >>= λ e.
          bridge c i e r.bidirectional)
        (λ i.
          resolved-Keeps r.egress_iface (λ e. bridge c i e r.bidirectional)
            (λ e. bridge-Keeps i e r.bidirectional))
    where
      bridge-Keeps : (i e : ℕ) (both : Bool) → Keeps (bridge c i e both)
      bridge-Keeps i e both =
          then-Keeps (acquire pcap i pcpp_in)
            (acquire pcap e pcpp_in
              >> (start_receiver pcap c i (some e)
                  >> (if both then start_receiver pcap c e (some i) else give pcap (ok tt))))
            (acquire-Keeps i pcpp_in)
            (then-Keeps (acquire pcap e pcpp_in)
              (start_receiver pcap c i (some e)
                >> (if both then start_receiver pcap c e (some i) else give pcap (ok tt)))
              (acquire-Keeps e pcpp_in)
              (then-Keeps (start_receiver pcap c i (some e))
                (if both then start_receiver pcap c e (some i) else give pcap (ok tt))
                (start_receiver-Keeps c i (some e)) (back both)))
        where
          back :
              (b : Bool) → Keeps (if b then start_receiver pcap c e (some i) else give pcap (ok tt))
          back true = start_receiver-Keeps c e (some i)
          back false = give-Keeps (ok tt)

  abbrev listed : CaptureOptions → List Text → M W (Unit {0})
  listed c is = elim is [ [] ↦ capture_on pcap c [] | i ∷ is ↦ capture_all pcap c (i ∷ is) ]

  abbrev mode : RuntimeConfig → Bool → M W (Unit {0})
  mode c b = if b then route_traffic pcap c.capture c.routing else listed c.capture c.capture.ifaces

  mode-Keeps : (c : RuntimeConfig) (b : Bool) → Keeps (mode c b)
  mode-Keeps c true = route_traffic-Keeps c.capture c.routing
  mode-Keeps c false = go c.capture.ifaces
    where
      go : (is : List Text) → Keeps (listed c.capture is)
      go [] = capture_on-Keeps c.capture []
      go (i ∷ is) = capture_all-Keeps c.capture (i ∷ is)

  pub set_up-Keeps : (refusal : Option Refusal) (c : RuntimeConfig) → Keeps (set_up pcap refusal c)
  unfolding set_up
  set_up-Keeps refusal c =
      then-Keeps (give pcap (made c.capture.record_packets refusal)) (mode c c.routing.enabled)
        (give-Keeps (made c.capture.record_packets refusal)) (mode-Keeps c c.routing.enabled)
    where
      made : Bool → Option Refusal → Result (Unit {0})
      made b o = if b then (elim o [ some r ↦ err (store_refused r) | none ↦ ok tt ]) else ok tt
