-- ===== src/Dispatch/Init.antt =====
-- A new allocator by src/va_allocator.c, where there may be another of its type.
use allocator_bench.Base.{
  ℕ, ◌+◌, ◌^◌, ◌<◌, ◌≡◌, refl, ap, true, Option, none, some, ok, Returns, Returns-bind,
}
use allocator_bench.Default
use allocator_bench.Default.{va_reservation_size}
use allocator_bench.Default.Session
use allocator_bench.Default.Session.{init-IsNew}
use allocator_bench.Arenas
use allocator_bench.Arenas.Init
use allocator_bench.Arenas.Init.{init_arena_allocator-IsNew}
use allocator_bench.Dispatch.{
  Table, default_ops, arena_ops, AllocatorType, type_default, type_arena, Ops, Handle, impl_of,
  handle_of, init_impl, va_allocator_init, va_allocator_get_used_size,
}

-- The other table's allocator.
abbrev pub Kept : Table → Ops → Ops → Type 0
Kept default_ops ops ops' = ops'.arena_impl ≡ ops.arena_impl
Kept arena_ops ops ops' = ops'.default_impl ≡ ops.default_impl

abbrev pub type_of : Table → AllocatorType
type_of default_ops = type_default
type_of arena_ops = type_arena

-- The handle is for the type; nothing is in use under it, and so under no handle for the type; and
-- the allocator of the other type is as before.
abbrev pub Reset : Table → Ops → Handle × Ops → Type 0
Reset table ops (handle, ops') =
    (handle ≡ some table)
    × (va_allocator_get_used_size (some table) ops' ≡ ok 0)
    × Kept table ops ops'

-- Where memory is had and `mmap` gives a range of user addresses, `va_allocator_init` returns a handle
-- for the type asked for. Whatever was in use in an allocator of the type before, nothing is in use
-- afterwards under any handle for the type, and an allocator of the other type is as before.
pub va_allocator_init-Reset :
    (base : ℕ) (table : Table) (ops : Ops)
    → 0 < base
    → base + va_reservation_size < 2 ^ 63
    → Returns (Reset table ops) (
        va_allocator_init
          (record { handle = true; impl = true; va_base = some base; block = true })
          (type_of table)
          ops)
unfolding va_allocator_init init_impl va_allocator_get_used_size
va_allocator_init-Reset base default_ops ops pos fits =
    Returns-bind (Session.IsNew base) (Reset default_ops ops) (Default.init true (some base) true) _
      (init-IsNew base pos fits) made
  where
    made :
        (new : Option Default.Allocator)
        → Session.IsNew base new
        → Reset default_ops ops
            (handle_of default_ops (impl_of new), record ops { default_impl = impl_of new })
    made none h = absurd h
    made (some s) (valid, used, list) = (refl, ap ok used, refl)
va_allocator_init-Reset base arena_ops ops pos fits =
    Returns-bind Init.IsNew (Reset arena_ops ops) (Arenas.init_arena_allocator true) _
      init_arena_allocator-IsNew made
  where
    made :
        (new : Option Arenas.Allocator)
        → Init.IsNew new
        → Reset arena_ops ops
            (handle_of arena_ops (impl_of new), record ops { arena_impl = impl_of new })
    made none h = absurd h
    made (some s) (valid, total, used) = (refl, ap ok used, refl)
