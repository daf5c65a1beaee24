-- ===== src/Capture/Release.antt =====
-- The service closes the devices that it opened, also those of an `Init` that threw.
use elephant_shrew.Prelude.{
  ℕ, ◌≡◌, refl, sym, ap, ◌∙◌, inl, inr, Bool, true, false, ◌||◌, List, [], ◌∷◌, Option, ◌==◌,
  ==_iff, arith, if◌then◌else◌, Bool-cases,
}
use elephant_shrew.Config.{RuntimeConfig}
use elephant_shrew.Store.Connect.{Refusal}
use elephant_shrew.Receiver.{Pcap, Receiver, stop}
use elephant_shrew.Capture.{
  Shrew, contains, stop_all, close_each, close_devices, clear_receivers, release, init,
}
use elephant_shrew.Capture.Devices.{IsLawful, IsTracked, set_up-Keeps, stop-world}

module _ {W : Type 0} (pcap : Pcap W) (lawful : IsLawful pcap) (before : W) where
  stop_all-world :
      (rs : List Receiver) (w : W) (e : ℕ)
      → pcap.is_opened e (stop_all pcap rs w) ≡ pcap.is_opened e w
  unfolding stop_all
  stop_all-world [] w e = refl
  stop_all-world (r ∷ rs) w e =
      stop_all-world rs (stop pcap r w).1 e ∙ stop-world pcap lawful before r w e

  ==_sym : (a b : ℕ) → (a == b) ≡ (b == a)
  ==_sym a b = ground arith

  -- one turn of the loop of `CloseDevices`
  close_lem :
      (d e : ℕ) (w : W)
      → pcap.is_opened e (if pcap.is_opened d w then pcap.close d w else w)
        ≡ (if d == e then false else pcap.is_opened e w)
  close_lem d e w = elim (Bool-cases (pcap.is_opened d w)) [
    | inl p ↦
        rw p (lawful.closes d e w ∙ ap (λ b. if b then false else pcap.is_opened e w) (==_sym e d))
    | inr p ↦ rw p (elim (Bool-cases (d == e)) [
      | inl q ↦ rw q (ap (λ x. pcap.is_opened x w) (sym ((==_iff d e).0 q)) ∙ p)
      | inr q ↦ rw q
    ])
  ]

  -- after that loop the devices on the list are closed, the others as they were
  close_each_lem :
      (ds : List ℕ) (w : W) (e : ℕ)
      → pcap.is_opened e (close_each pcap ds w)
        ≡ (if contains ds e then false else pcap.is_opened e w)
  unfolding close_each
  close_each_lem [] w e = refl
  close_each_lem (d ∷ ds) w e =
      close_lem d e (close_each pcap ds w)
      ∙ (ap (λ b. if d == e then false else b) (close_each_lem ds w e) ∙ merge (d == e))
    where
      merge :
          (b : Bool)
          → (if b then false else if contains ds e then false else pcap.is_opened e w)
            ≡ (if b || contains ds e then false else pcap.is_opened e w)
      merge true = refl
      merge false = refl

  release-Tracked :
      (s : Shrew W)
      → IsTracked pcap lawful before s
      → (e : ℕ) → pcap.is_opened e (release pcap s).world ≡ true
      → pcap.is_opened e before ≡ true
  unfolding release close_devices clear_receivers
  release-Tracked s v e h =
      let w = stop_all pcap s.receivers s.world in
      let closed = sym (close_each_lem s.opened_devices w e) ∙ h in
      elim (Bool-cases (contains s.opened_devices e)) [
        | inl p ↦ absurd (false-true (rw p at closed))
        | inr p ↦ elim (v e (sym (stop_all-world s.receivers s.world e) ∙ (rw p at closed))) [
          | inl b ↦ b
          | inr c ↦ absurd (false-true (sym p ∙ c))
        ]
      ]
    where
      false-true : false ≡ true → ⊥
      false-true q = cc

-- Whatever `Init` does, also when it throws, a device that is open after the service is destroyed was open
-- before: once its devices were closed for the first time, at the start of `Init`. Premise: the devices are lawful.
pub release-init :
    {W : Type 0} (pcap : Pcap W)
    → IsLawful pcap
    → (refusal : Option Refusal) (c : RuntimeConfig) (s : Shrew W) (e : ℕ)
    → pcap.is_opened e (release pcap (init pcap refusal c s).1).world ≡ true
    → pcap.is_opened e (release pcap s).world ≡ true
unfolding init
release-init pcap lawful refusal c s e h =
    release-Tracked pcap lawful (release pcap s).world (init pcap refusal c s).1
      (set_up-Keeps pcap lawful (release pcap s).world refusal c (release pcap s) (λ d o. inl o)) e
      h
