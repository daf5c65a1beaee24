-- ===== src/Decoder/Accepts.antt =====
-- Exactly which records are accepted.
use mathlib.Core.Path.{subst}
use elephant_shrew.Prelude.{
  ◌↔◌, refl, sym, ap, ◌∙◌, inl, inr, Bool-cases, some_inj, ℕ, ◌≤◌, ◌<◌, ◌≡◌, ◌≢◌, ◌⊎◌, true, false,
  List, Option, none, some, arith, ◌==◌, has_flag,
}
use elephant_shrew.Abi.{Event, t_addr_valid, t_ports_valid, t_fragment, e_copy_failed}
use elephant_shrew.Abi.Layout.{load_event}
use elephant_shrew.Decoder.{
  unknown_record, copy_contradicts, ports_contradict, check_event, decode_event,
}

-- A record that user space may trust.
pub record IsTrusted (e : Event) : Type 0 where
  pub version : e.abi_version ≡ 2
  pub size : e.record_size ≡ 216
  pub interface : e.ifindex ≢ 0
  pub direction : e.direction < 2
  pub hook : (e.hook ≡ 1) ⊎ (e.hook ≡ 2)
  pub ethernet : e.link_type ≡ 1
  pub status : e.parse_status ≤ 5
  pub snapshot : e.captured_len ≤ 128
  pub within : e.captured_len ≤ e.original_len
  pub tags : e.tuple.vlan_count ≤ 2
  pub reserved : e.tuple.reserved ≡ 0
  pub event_flags : e.flags < 8
  pub tuple_flags : e.tuple.flags < 16
  pub failed_copy : has_flag e.flags e_copy_failed ≡ true → e.captured_len ≡ 0
  pub ports_need_addresses :
      has_flag e.tuple.flags t_ports_valid ≡ true → has_flag e.tuple.flags t_addr_valid ≡ true
  pub ports_not_fragment :
      has_flag e.tuple.flags t_ports_valid ≡ true → has_flag e.tuple.flags t_fragment ≡ false
  pub ports_transport :
      has_flag e.tuple.flags t_ports_valid ≡ true → (e.tuple.l4_proto ≡ 6) ⊎ (e.tuple.l4_proto ≡ 17)

none-some : {e : Event} → none ≡ some e → ⊥
none-some h = cc

-- the three tests read together
passed :
    (e : Event) {e' : Event}
    → check_event e ≡ some e'
    → (e ≡ e')
      × (unknown_record e ≡ false)
      × (copy_contradicts e ≡ false)
      × (ports_contradict e ≡ false)
unfolding check_event
passed e h = elim (Bool-cases (unknown_record e)) [
  | inl p ↦ absurd (none-some (rw (p, check_event) at h))
  | inr p ↦ elim (Bool-cases (copy_contradicts e)) [
    | inl q ↦ absurd (none-some (rw (p, q, check_event) at h))
    | inr q ↦ elim (Bool-cases (ports_contradict e)) [
      | inl r ↦ absurd (none-some (rw (p, q, r, check_event) at h))
      | inr r ↦ (some_inj (rw (p, q, r, check_event) at h), p, q, r)
    ]
  ]
]

known :
    (e : Event)
    → unknown_record e ≡ false
    → copy_contradicts e ≡ false
    → ports_contradict e ≡ false
    → IsTrusted e
known e p q r = record {
  version = ground arith;
  size = ground arith;
  interface = ground arith;
  direction = ground arith;
  hook = ground arith;
  ethernet = ground arith;
  status = ground arith;
  snapshot = ground arith;
  within = ground arith;
  tags = ground arith;
  reserved = ground arith;
  event_flags = ground arith;
  tuple_flags = ground arith;
  failed_copy = λ h. ground arith;
  ports_need_addresses = λ h. ground arith;
  ports_not_fragment = λ h. ground arith;
  ports_transport = λ h. ground arith;
}

not_unknown : (e : Event) → IsTrusted e → unknown_record e ≡ false
not_unknown e v = ground arith

copy_agrees : (e : Event) → IsTrusted e → copy_contradicts e ≡ false
copy_agrees e v = elim (Bool-cases (has_flag e.flags e_copy_failed)) [
  | inl p ↦ ground (arith, v.failed_copy p)
  | inr p ↦ rw p
]

ports_agree : (e : Event) → IsTrusted e → ports_contradict e ≡ false
ports_agree e v = elim (Bool-cases (has_flag e.tuple.flags t_ports_valid)) [
  | inl p ↦
      rw (p, v.ports_need_addresses p, v.ports_not_fragment p) (ground (arith, v.ports_transport p))
  | inr p ↦ rw p
]

pub check_event-IsTrusted : (e : Event) → IsTrusted e → check_event e ≡ some e
unfolding check_event
check_event-IsTrusted e v = rw (check_event, not_unknown e v, copy_agrees e v, ports_agree e v)

decode_bytes_iff :
    (bytes : List ℕ) (size : ℕ) (e : Event)
    → (decode_event (some bytes) size ≡ some e)
      ↔ ((size ≡ 216) × (load_event bytes ≡ e) × IsTrusted e)
unfolding decode_event
decode_bytes_iff bytes size e = (
  sound,
  λ h.
      rw h.0
        (check_event-IsTrusted (load_event bytes) (subst IsTrusted (sym h.1) h.2) ∙ ap some h.1),
)
  where
    sound :
        decode_event (some bytes) size ≡ some e
        → (size ≡ 216) × (load_event bytes ≡ e) × IsTrusted e
    sound h = elim (Bool-cases (size == 216)) [
      | inl p ↦
          let (same, a, b, c) = passed (load_event bytes) (rw (p, decode_event) at h) in
          (ground arith, same, subst IsTrusted same (known (load_event bytes) a b c))
      | inr p ↦ absurd (none-some (rw (p, decode_event) at h))
    ]

-- `DecodeEvent` gives out a record exactly when the data pointer is not null, the data is 216 bytes long by
-- the ring's account, and it holds a trusted record; then it gives out that record.
pub decode_event_iff :
    (given : Option (List ℕ)) (size : ℕ) (e : Event)
    → (decode_event given size ≡ some e) ↔ (
        (bytes : List ℕ) × (given ≡ some bytes)
        × (size ≡ 216)
        × (load_event bytes ≡ e)
        × IsTrusted e)
unfolding decode_event
decode_event_iff none size e = (λ h. absurd (none-some h), λ r. absurd (nothing r.1))
  where
    nothing : {bytes : List ℕ} → none ≡ some bytes → ⊥
    nothing h = cc
decode_event_iff (some bytes) size e =
    let (sound, complete) = decode_bytes_iff bytes size e in
    (
      λ h. let (same, loaded, v) = sound h in (bytes, refl, same, loaded, v),
      λ r. complete (r.2, ap load_event (some_inj r.1) ∙ r.3, r.4),
    )
