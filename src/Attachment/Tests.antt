-- ===== src/Attachment/Tests.antt =====
-- A kernel with one slot that another owner has taken.
use elephant_shrew.Prelude.{ℕ, ◌≡◌, refl, true, false}
use elephant_shrew.Attachment.{TcKernel, TcAttachment, detach_filter, estale}
use elephant_shrew.Attachment.Owner.{IsOurs, IsDown, detach_filter-IsOurs}

-- the state is the program in the slot
abbrev one_slot : TcKernel ℕ
one_slot = record {
  program_info = λ fd k. (0, fd);
  hook_create = λ h k. (0, k);
  attach = λ h fd handle priority k. (0, fd);
  query = λ h handle priority k. (0, k);
  detach = λ h handle priority k. (0, 0);
}

abbrev ours : TcAttachment
ours = record {
  hook = record { ifindex = 3; attach_point = 1 };
  handle = 1;
  priority = 1;
  program_id = 7;
  attached = true;
}

detach-stale : (detach_filter one_slot ours 9).0 ≡ estale
unfolding detach_filter
detach-stale = refl

detach_filter-IsOurs_example :
    (IsOurs one_slot ours 7 → (detach_filter one_slot ours 7).2 ≡ 0)
    × (¬ (IsOurs one_slot ours 7) → (detach_filter one_slot ours 7).2 ≡ 7)
    × ((detach_filter one_slot ours 7).0 ≡ 0
        → ((detach_filter one_slot ours 7).1.attached ≡ false) × IsDown one_slot ours 7)
detach_filter-IsOurs_example = detach_filter-IsOurs one_slot ours 7
