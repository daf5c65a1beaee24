-- ===== src/Xdp/Tests.antt =====
-- A bridge that forwards, and the theorem at it.
use elephant_shrew.Prelude.{◌≡◌, refl, inl, true, [], ◌∷◌, some, arith, All}
use elephant_shrew.Abi.{Counters}
use elephant_shrew.Observer.Sampling.{zero_counters}
use elephant_shrew.Xdp.{xdp_pass, xdp_drop, xdp_redirect, RedirectMap, es_xdp, es_xsk}
use elephant_shrew.Xdp.Counted.{IsLawful, IsCounted, IsFate, run, run-IsCounted}

abbrev port : RedirectMap
port key v = xdp_redirect

port-IsLawful : IsLawful port
port-IsLawful = record { gives = λ key v. inl refl }

-- a socket that is not registered leaves the packet to the stack
es_xsk-unregistered : es_xsk (λ queue v. v) 5 ≡ xdp_pass
unfolding es_xsk
es_xsk-unregistered = refl

run-frames : (run true port (60 ∷ 13 ∷ []) (some zero_counters)).0 ≡ xdp_redirect ∷ xdp_drop ∷ []
unfolding run es_xdp
run-frames = refl

run-IsCounted_example :
    ((u : Counters) × ((run true port (60 ∷ 13 ∷ []) (some zero_counters)).1 ≡ some u)
      × IsCounted true (60 ∷ 13 ∷ []) zero_counters u)
    × All (IsFate true) (run true port (60 ∷ 13 ∷ []) (some zero_counters)).0
run-IsCounted_example =
    run-IsCounted port port-IsLawful true (60 ∷ 13 ∷ []) zero_counters (omega arith)
