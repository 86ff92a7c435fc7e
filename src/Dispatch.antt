-- ===== src/Dispatch.antt =====
-- src/va_allocator.c: the calls of a client, by the operations of the type of allocator.
-- An `ops` table is static, one for each type, and its `impl` is the allocator: `Ops` holds the two.
-- A handle is a `va_allocator_t *`: none is NULL, and else its `ops` points to the table of a type,
-- whose functions are all there. What `calloc` and `mmap` return is an argument.
pub mod Init
mod Examples
use allocator_bench.Base.{
  ℕ, Bool, true, false, Option, none, some, ◌==◌, if◌then◌else◌, Run, ok, stop, ◌>>=◌,
}
use allocator_bench.Default
use allocator_bench.Arenas
use allocator_bench.Arenas.{Outside}

pub data AllocatorType : Type 0 where
  type_default : AllocatorType
  type_arena : AllocatorType
  type_max : AllocatorType

-- The table that a handle's `ops` points to.
pub data Table : Type 0 where
  default_ops : Table
  arena_ops : Table

-- What an `impl` points to: nothing, an allocator, or memory that was freed.
pub data Impl (A : Type 0) : Type 0 where
  null : Impl A
  live : A → Impl A
  freed : Impl A

pub record Ops : Type 0 where
  pub default_impl : Impl Default.Allocator
  pub arena_impl : Impl Arenas.Allocator

abbrev pub Handle : Type 0
Handle = Option Table

-- Whether `calloc` has memory for the handle, for the allocator, and for its block; and the address
-- of its reservation, or none where `mmap` fails.
pub record Given : Type 0 where
  pub handle : Bool
  pub impl : Bool
  pub va_base : Option ℕ
  pub block : Bool

abbrev pub impl_of : {A : Type 0} → Option A → Impl A
impl_of none = null
impl_of (some a) = live a

-- A handle, unless the new allocator is NULL.
abbrev pub handle_of : {A : Type 0} → Table → Impl A → Handle
handle_of table null = none
handle_of table (live a) = some table
handle_of table freed = some table

unfoldable pub init_impl : Given → AllocatorType → Ops → Run (Handle × Ops)
init_impl given type_default ops = Default.init given.impl given.va_base given.block >>= λ made.
    ok (handle_of default_ops (impl_of made), record ops { default_impl = impl_of made })
init_impl given type_arena ops = Arenas.init_arena_allocator given.impl >>= λ made.
    ok (handle_of arena_ops (impl_of made), record ops { arena_impl = impl_of made })
init_impl given type_max ops = ok (none, ops)

unfoldable pub va_allocator_init : Given → AllocatorType → Ops → Run (Handle × Ops)
va_allocator_init given type ops = if given.handle then init_impl given type ops else ok (none, ops)

-- A call of `default_alloc` tests the size before it reads the allocator.
unfoldable pub default_alloc : Bool → ℕ → Ops → Impl Default.Allocator → Run (ℕ × Ops)
default_alloc has_memory size ops null = if size == 0 then ok (0, ops) else stop
default_alloc has_memory size ops freed = if size == 0 then ok (0, ops) else stop
default_alloc has_memory size ops (live s) = Default.alloc has_memory size s >>= λ (addr, s').
    ok (addr, record ops { default_impl = live s' })

unfoldable pub arena_alloc : Outside → ℕ → Ops → Impl Arenas.Allocator → Run (ℕ × Ops)
arena_alloc out size ops null = ok (0, ops)
arena_alloc out size ops freed = stop
arena_alloc out size ops (live s) =
    Arenas.arena_alloc out size s >>= λ (addr, s'). ok (addr, record ops { arena_impl = live s' })

unfoldable pub va_alloc : Bool → Outside → Handle → ℕ → Ops → Run (ℕ × Ops)
va_alloc has_memory out none size ops = ok (0, ops)
va_alloc has_memory out (some default_ops) size ops =
    default_alloc has_memory size ops ops.default_impl
va_alloc has_memory out (some arena_ops) size ops = arena_alloc out size ops ops.arena_impl

unfoldable pub default_free : ℕ → Ops → Impl Default.Allocator → Run Ops
default_free addr ops null = ok ops
default_free addr ops freed = stop
default_free addr ops (live s) =
    Default.free addr s >>= λ s'. ok (record ops { default_impl = live s' })

unfoldable pub arena_free : ℕ → Ops → Impl Arenas.Allocator → Run Ops
arena_free addr ops null = ok ops
arena_free addr ops freed = stop
arena_free addr ops (live s) =
    Arenas.arena_free addr s >>= λ s'. ok (record ops { arena_impl = live s' })

unfoldable pub va_free : Handle → ℕ → Ops → Run Ops
va_free none addr ops = ok ops
va_free (some default_ops) addr ops = default_free addr ops ops.default_impl
va_free (some arena_ops) addr ops = arena_free addr ops ops.arena_impl

-- The default allocator's two getters read the allocator without a test; the arenas' return 0 for
-- NULL.
abbrev pub read_default : (Default.Allocator → ℕ) → Impl Default.Allocator → Run ℕ
read_default field null = stop
read_default field (live s) = ok (field s)
read_default field freed = stop

abbrev pub read_arena : (Arenas.Allocator → ℕ) → Impl Arenas.Allocator → Run ℕ
read_arena field null = ok 0
read_arena field (live s) = ok (field s)
read_arena field freed = stop

unfoldable pub va_allocator_get_total_size : Handle → Ops → Run ℕ
va_allocator_get_total_size none ops = ok 0
va_allocator_get_total_size (some default_ops) ops =
    read_default Default.get_total_size ops.default_impl
va_allocator_get_total_size (some arena_ops) ops =
    read_arena Arenas.arena_get_total_size ops.arena_impl

unfoldable pub va_allocator_get_used_size : Handle → Ops → Run ℕ
va_allocator_get_used_size none ops = ok 0
va_allocator_get_used_size (some default_ops) ops =
    read_default Default.get_used_size ops.default_impl
va_allocator_get_used_size (some arena_ops) ops =
    read_arena Arenas.arena_get_used_size ops.arena_impl

-- The static `impl` still points to the freed memory after the call.
unfoldable pub default_destroy : Ops → Impl Default.Allocator → Run Ops
default_destroy ops null = ok ops
default_destroy ops freed = stop
default_destroy ops (live s) =
    Default.destroy s >>= λ range. ok (record ops { default_impl = freed })

unfoldable pub arena_destroy : Ops → Impl Arenas.Allocator → Run Ops
arena_destroy ops null = ok ops
arena_destroy ops freed = stop
arena_destroy ops (live s) =
    Arenas.arena_destroy s >>= λ ranges. ok (record ops { arena_impl = freed })

unfoldable pub va_allocator_destroy : Handle → Ops → Run Ops
va_allocator_destroy none ops = ok ops
va_allocator_destroy (some default_ops) ops = default_destroy ops ops.default_impl
va_allocator_destroy (some arena_ops) ops = arena_destroy ops ops.arena_impl
