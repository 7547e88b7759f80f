-- ===== src/Memory/Active.antt =====
-- runtime_memory.cc: the doubly linked list of active allocations.
pub mod Chain
pub mod Laws
use lona_mvm.Prelude.{ℕ, if◌then◌else◌, ◌==◌}
use lona_mvm.Memory.Registry.{Registry, modify_header}

unfoldable pub link_active_allocation : Registry → ℕ → Registry
link_active_allocation r p =
    let r1 = modify_header r p (λ h. record h { prev = 0; next = r.active_allocation_head }) in
    let r2 =
      if r.active_allocation_head == 0
      then r1
      else modify_header r1 r.active_allocation_head (λ h. record h { prev = p }) in
    record r2 { active_allocation_head = p }

unfoldable pub unlink_active_allocation : Registry → ℕ → Registry
unlink_active_allocation r p =
    let before = (r.headers p).prev in
    let r1 =
      if before == 0
      then (if r.active_allocation_head == p
          then record r { active_allocation_head = (r.headers p).next }
          else r)
      else modify_header r before (λ h. record h { next = (r.headers p).next }) in
    let after = (r1.headers p).next in
    let r2 =
      if after == 0
      then r1
      else modify_header r1 after (λ h. record h { prev = (r1.headers p).prev }) in
    modify_header r2 p (λ h. record h { prev = 0; next = 0 })
