-- ===== src/Psd/Alloc.antt =====
-- zenpsd/src/alloc_util.rs. `reserve n` is whether the allocator grants a `try_reserve_exact` of `n` bytes. The other
-- way, `vec![0u8; n]`, ends the program when there is no memory.
use zenextras.Prelude.{ℕ, Bool, true, false, replicate, if◌then◌else◌, Result, ok, err}
use zenextras.Prelude.Bytes.{Bytes}
use zenextras.Psd.Types.{PsdError, out_of_memory}

pub data AllocPref : Type 0 where
  codec_default fallible infallible : AllocPref

unfoldable pub resolve_fallible : AllocPref → Bool → Bool
resolve_fallible fallible site_default_fallible = true
resolve_fallible infallible site_default_fallible = false
resolve_fallible codec_default site_default_fallible = site_default_fallible

unfoldable pub alloc_zeroed : (ℕ → Bool) → AllocPref → Bool → ℕ → Result PsdError Bytes
alloc_zeroed reserve pref site_default_fallible n =
    if resolve_fallible pref site_default_fallible
    then if reserve n then ok (replicate n 0) else err (out_of_memory n)
    else ok (replicate n 0)
