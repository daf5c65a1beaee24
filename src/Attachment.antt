-- ===== src/Attachment.antt =====
-- inc/TcAttachment.hpp: a program attached to an interface, and taken off again. libbpf and the kernel are
-- parameters; an error is its number, 0 for none.
pub mod Owner
mod Tests
use elephant_shrew.Prelude.{
  ℕ, Bool, true, false, not, ◌&&◌, ◌||◌, Option, none, some, ltb, ◌==◌, if◌then◌else◌,
}

-- `bpf_tc_hook`: the interface and the attach point
pub record Hook : Type 0 where
  pub ifindex : ℕ
  pub attach_point : ℕ

-- the calls of libbpf over a kernel state `K`
pub record TcKernel (K : Type 0) : Type 0 where
  pub program_info : ℕ → K → ℕ × ℕ
  pub hook_create : Hook → K → ℕ × K
  pub attach : Hook → ℕ → ℕ → ℕ → K → ℕ × K
  pub query : Hook → ℕ → ℕ → K → ℕ × ℕ
  pub detach : Hook → ℕ → ℕ → K → ℕ × K

-- the fields of `TcAttachment`
pub record TcAttachment : Type 0 where
  pub hook : Hook
  pub handle : ℕ
  pub priority : ℕ
  pub program_id : ℕ
  pub attached : Bool

abbrev pub enoent : ℕ
enoent = 2

abbrev pub eexist : ℕ
eexist = 17

abbrev pub enodev : ℕ
enodev = 19

abbrev pub estale : ℕ
estale = 116

-- how `Attach` ends: it returns, or throws
pub data Attached : Type 0 where
  done : Attached
  already_active : Attached
  invalid_identity : Attached
  system_error : ℕ → Attached

module _ {K : Type 0} (kernel : TcKernel K) where
  -- from `bpf_tc_attach` on
  unfoldable pub attach_to : Hook → ℕ → ℕ → ℕ → ℕ → TcAttachment → K → Attached × TcAttachment × K
  attach_to hook id fd handle priority t k =
      let (rc, k') = kernel.attach hook fd handle priority k in
      if not (rc == 0) then (system_error rc, record t { hook = hook }, k') else (
        done,
        record {
          hook = hook;
          handle = handle;
          priority = priority;
          program_id = id;
          attached = true;
        },
        k',
      )

  -- from `bpf_tc_hook_create` on
  unfoldable pub create_and_attach :
      Hook → ℕ → ℕ → ℕ → ℕ → TcAttachment → K → Attached × TcAttachment × K
  create_and_attach hook id fd handle priority t k =
      let (rc, k') = kernel.hook_create hook k in
      if not (rc == 0) && not (rc == eexist)
      then (system_error rc, record t { hook = hook }, k')
      else attach_to hook id fd handle priority t k'

  -- `Attach`; an index of 0 stands for all `ifindex <= 0`, and `none` for `prog_fd < 0`
  unfoldable pub attach_filter :
      Hook → Option ℕ → ℕ → ℕ → TcAttachment → K → Attached × TcAttachment × K
  attach_filter hook none handle priority t k =
      if t.attached then (already_active, t, k) else (invalid_identity, t, k)
  attach_filter hook (some fd) handle priority t k =
      let (rc, id) = kernel.program_info fd k in
      if t.attached
      then (already_active, t, k)
      else if hook.ifindex == 0 || handle == 0 || priority == 0 || ltb 65535 priority
      then (invalid_identity, t, k)
      else if not (rc == 0)
      then (system_error rc, t, k)
      else create_and_attach hook id fd handle priority t k

  -- from `bpf_tc_detach` on
  unfoldable pub remove : TcAttachment → K → ℕ × TcAttachment × K
  remove t k =
      let (rc, k') = kernel.detach t.hook t.handle t.priority k in
      if rc == 0 || rc == enoent || rc == enodev
      then (0, record t { attached = false }, k')
      else (rc, t, k')

  -- `Detach`
  unfoldable pub detach_filter : TcAttachment → K → ℕ × TcAttachment × K
  detach_filter t k =
      let (rc, id) = kernel.query t.hook t.handle t.priority k in
      if not t.attached
      then (0, t, k)
      else if rc == enoent || rc == enodev
      then (0, record t { attached = false }, k)
      else if not (rc == 0)
      then (rc, t, k)
      else if not (id == t.program_id)
      then (estale, record t { attached = false }, k)
      else remove t k
