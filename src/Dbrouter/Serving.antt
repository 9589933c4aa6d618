-- ===== src/Dbrouter/Serving.antt =====
-- What a request for an instance is answered with.
use sutil.Prelude.Text.{Bytes, text_eq_iff}
use sutil.Prelude.Maps.{lookup, lookup-store_self}
use sutil.Dbrouter.Manager.{
  InstanceManager, get, build_key, resolve_group, get_in, get_or_build, build_instance, build_in,
  find_or_make, keep,
}
use sutil.Prelude.{◌≡◌, Option, some, inl, inr, List, arith, Option-cases}
use sutil.Dbrouter.Parser.{default_group}

module _ {Instancer : Type 0} (factory : Bytes → Bytes → Option Instancer) where
  resolve_group-idempotent :
      (group g : Bytes) (groups : List Bytes)
      → resolve_group group groups ≡ some g
      → resolve_group g groups ≡ some g
  unfolding resolve_group
  resolve_group-idempotent group g groups h =
      ground (arith, text_eq_iff group default_group, text_eq_iff g default_group)

  kept :
      (inst g : Bytes) (m n : InstanceManager Instancer) (i : Instancer)
      → resolve_group g m.groups ≡ some g
      → get_in factory inst (some g) m ≡ (n, some i)
      → (n.groups ≡ m.groups) × (lookup (build_key inst g) n.instances ≡ some i)
  unfolding get_in get_or_build build_instance build_in find_or_make keep
  kept inst g m n i r h = ground (
    arith,
    lookup-store_self (build_key inst g) i m.instances,
    Option-cases (lookup (build_key inst g) m.instances),
    Option-cases (factory inst g),
  )

  get_in-kept :
      (inst g : Bytes) (n : InstanceManager Instancer) (i : Instancer)
      → lookup (build_key inst g) n.instances ≡ some i
      → get_in factory inst (some g) n ≡ (n, some i)
  unfolding get_in get_or_build
  get_in-kept inst g n i h = ground (arith, h)

  -- An instance that a request was answered with is kept: the same request is answered with it
  -- again, and changes nothing.
  pub get-get :
      (inst group : Bytes) (m n : InstanceManager Instancer) (i : Instancer)
      → get factory inst group m ≡ (n, some i)
      → get factory inst group n ≡ (n, some i)
  unfolding get get_in
  get-get inst group m n i h = elim (Option-cases (resolve_group group m.groups)) [
    | inl e ↦ ground (arith, e, h)
    | inr (g, e) ↦
        let (same, found) =
          kept inst g m n i (resolve_group-idempotent group g m.groups e) (ground (arith, e, h)) in
        ground (arith, same, e, get_in-kept inst g n i found)
  ]
