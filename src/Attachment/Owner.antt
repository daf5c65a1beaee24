-- ===== src/Attachment/Owner.antt =====
-- Only the program that was attached is ever taken off.
use elephant_shrew.Prelude.{
  ℕ, ◌≡◌, refl, ◌⊎◌, inl, inr, true, false, ◌||◌, arith, ◌==◌, Bool-cases, ==_iff,
}
use elephant_shrew.Attachment.{TcKernel, TcAttachment, enoent, enodev, remove, detach_filter}

module _ {K : Type 0} (kernel : TcKernel K) where
  -- Our program is in its slot, as the kernel sees it.
  abbrev pub IsOurs : TcAttachment → K → Type 0
  IsOurs t k =
      (t.attached ≡ true)
      × ((kernel.query t.hook t.handle t.priority k).0 ≡ 0)
      × ((kernel.query t.hook t.handle t.priority k).1 ≡ t.program_id)

  -- the codes for a filter or an interface that is not there
  abbrev pub IsAbsent : ℕ → Type 0
  IsAbsent rc = (rc ≡ 2) ⊎ (rc ≡ 19)

  -- why a detach may report success
  pub data IsDown (t : TcAttachment) (k : K) : Type 0 where
    idle : t.attached ≡ false → IsDown t k
    absent : IsAbsent (kernel.query t.hook t.handle t.priority k).0 → IsDown t k
    taken_off : IsOurs t k → (kernel.detach t.hook t.handle t.priority k).0 ≡ 0 → IsDown t k
    vanished : IsOurs t k → IsAbsent (kernel.detach t.hook t.handle t.priority k).0 → IsDown t k

  IsAbsent-of : (rc : ℕ) → (rc == enoent || rc == enodev) ≡ true → IsAbsent rc
  IsAbsent-of rc h = ground arith

  IsDown-of :
      (t : TcAttachment) (k : K)
      → IsOurs t k
      → let rc = (kernel.detach t.hook t.handle t.priority k).0 in
        (rc == 0 || rc == enoent || rc == enodev) ≡ true → IsDown t k
  IsDown-of t k ours h =
      let rc = (kernel.detach t.hook t.handle t.priority k).0 in
      elim (Bool-cases (rc == 0)) [
        | inl p ↦ taken_off ours ((==_iff _ _).0 p)
        | inr p ↦ vanished ours (IsAbsent-of rc (rw p at h))
      ]

  remove_lem :
      (t : TcAttachment) (k : K)
      → IsOurs t k
      → let (rc, t', k') = remove kernel t k in
        (k' ≡ (kernel.detach t.hook t.handle t.priority k).1)
        × ((rc ≡ 0 → (t'.attached ≡ false) × IsDown t k))
  unfolding remove
  remove_lem t k ours =
      let rc = (kernel.detach t.hook t.handle t.priority k).0 in
      elim (Bool-cases (rc == 0 || rc == enoent || rc == enodev)) [
        | inl p ↦ rw (p, remove) (refl, λ h. (refl, IsDown-of t k ours p))
        | inr p ↦ rw (p, remove) (refl, λ h. absurd (ground (arith, h)))
      ]

  -- Where the object is attached and the query shows its own program in the slot, a detach leaves the kernel as the
  -- one call that removes the program does; everywhere else the kernel is as before, so that another owner's
  -- program stays. A detach reports success only where nothing was attached, the query shows the slot or the
  -- interface to be gone, or the kernel has removed the program or finds it gone; and then the object is
  -- no longer attached.
  pub detach_filter-IsOurs :
      (t : TcAttachment) (k : K)
      → let (rc, t', k') = detach_filter kernel t k in
        (IsOurs t k → k' ≡ (kernel.detach t.hook t.handle t.priority k).1)
        × (¬ (IsOurs t k) → k' ≡ k)
        × (rc ≡ 0 → (t'.attached ≡ false) × IsDown t k)
  unfolding detach_filter
  detach_filter-IsOurs t k =
      let rc = (kernel.query t.hook t.handle t.priority k).0 in
      let id = (kernel.query t.hook t.handle t.priority k).1 in
      elim (Bool-cases t.attached) [
        | inr p ↦
            rw (p, detach_filter)
              (λ ours. absurd (false-true ours.0), λ _. refl, λ h. (refl, idle refl))
        | inl p ↦ elim (Bool-cases (rc == enoent || rc == enodev)) [
          | inl q ↦
              rw (p, q, detach_filter)
                (
                  λ ours. absurd (ground (arith, ours.1)),
                  λ _. refl,
                  λ h. (refl, absent (IsAbsent-of rc q)),
                )
          | inr q ↦ elim (Bool-cases (rc == 0)) [
            | inr r ↦
                rw (p, q, r, detach_filter)
                  (
                    λ ours. absurd (ground (arith, ours.1)),
                    λ _. refl,
                    λ h. absurd (ground (arith, h)),
                  )
            | inl r ↦ elim (Bool-cases (id == t.program_id)) [
              | inr s ↦
                  rw (p, q, r, s, detach_filter)
                    (
                      λ ours. absurd (ground (arith, ours.2)),
                      λ _. refl,
                      λ h. absurd (omega (arith, h)),
                    )
              | inl s ↦
                  let ours : IsOurs t k = (p, (==_iff _ _).0 r, (==_iff _ _).0 s) in
                  let (same, gone) =
                    remove_lem (record t { attached = true }) k (refl, ours.1, ours.2) in
                  rw (p, q, r, s, detach_filter)
                    (λ _. same, λ other. absurd (other (refl, ours.1, ours.2)), gone)
            ]
          ]
        ]
      ]
    where
      false-true : false ≡ true → ⊥
      false-true h = cc
