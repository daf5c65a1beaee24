-- ===== src/Xdp.antt =====
-- bpf/elephantshrew_xdp.bpf.c, bpf/elephantshrew_xsk.bpf.c: the XDP programs, which count a packet and
-- hand it to another device or to a socket. `bpf_redirect_map` is a parameter, by its key and flags.
pub mod Counted
mod Tests
use elephant_shrew.Prelude.{
  ℕ, Bool, true, false, not, List, [], ◌∷◌, Option, none, some, add64, ltb, if◌then◌else◌,
}
use elephant_shrew.Abi.{Counters}

pub data XdpVerdict : Type 0 where
  xdp_aborted xdp_drop xdp_pass xdp_tx xdp_redirect : XdpVerdict

abbrev pub RedirectMap : Type 0
RedirectMap = ℕ → XdpVerdict → XdpVerdict

-- the two counters of every packet
abbrev pub count_packet : ℕ → Counters → Counters
count_packet len s = record s { packets = add64 s.packets 1; bytes = add64 s.bytes len }

abbrev pub count_attempt : Counters → Counters
count_attempt s = record s { redirect_attempt = add64 s.redirect_attempt 1 }

abbrev count_with : (Counters → Counters) → Option Counters → Option Counters
count_with f none = none
count_with f (some s) = some (f s)

-- the program on a packet of `len` bytes
unfoldable pub es_xdp : Bool → RedirectMap → ℕ → Option Counters → XdpVerdict × Option Counters
es_xdp forwarding_enabled tx_port len s =
    let s' = count_with (count_packet len) s in
    if not forwarding_enabled
    then (xdp_pass, s')
    else if ltb len 14
    then (xdp_drop, s')
    else (tx_port 0 xdp_drop, count_with count_attempt s')

-- the program on a packet of a queue
unfoldable pub es_xsk : RedirectMap → ℕ → XdpVerdict
es_xsk xsks queue = xsks queue xdp_pass
