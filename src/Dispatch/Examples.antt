-- ===== src/Dispatch/Examples.antt =====
-- The calls of a client on concrete states.
use allocator_bench.Base.{◌≡◌, refl, true, none, some, arith, ok, stop, Returns}
use allocator_bench.Dispatch.{
  type_default, type_max, default_ops, null, freed, Ops, Given, va_allocator_init, init_impl,
  va_allocator_destroy, default_destroy,
}
use allocator_bench.Dispatch.Init.{Reset, va_allocator_init-Reset}

abbrev at_start : Ops
at_start = record { default_impl = null; arena_impl = null }

abbrev given : Given
given = record { handle = true; impl = true; va_base = some 4096; block = true }

no_such_type : va_allocator_init given type_max at_start ≡ ok (none, at_start)
unfolding va_allocator_init init_impl
no_such_type = refl

-- A second handle after its allocator is destroyed through another one.
after_destroy :
    va_allocator_destroy (some default_ops) (record at_start { default_impl = freed }) ≡ stop
unfolding va_allocator_destroy default_destroy
after_destroy = refl

va_allocator_init-Reset_example :
    Returns (Reset default_ops at_start) (va_allocator_init given type_default at_start)
va_allocator_init-Reset_example =
    va_allocator_init-Reset 4096 default_ops at_start (omega arith) (omega arith)
