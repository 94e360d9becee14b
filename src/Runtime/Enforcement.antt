-- ===== src/Runtime/Enforcement.antt =====
-- crates/nyarix-runtime/src/capability_enforcement.rs, with `catch_module_panic` of sandbox.rs and
-- `instantiate` of crates/nyarix-loader/src/instantiation.rs. The log lines are left out.
pub mod Checked
use Prim.Native.String.{String}
use nyarix_runtime.Base.{ℕ, Bool, List, [], ◌∷◌, Option, none, some, Result, ok, err, if◌then◌else◌}
use nyarix_runtime.Errors.{ModuleError, crashed, SecurityError, capability_denied}
use nyarix_runtime.ModuleApi.Capability.{
  MaskOps, Capability, CapabilityGrant, request, is_fully_granted,
}

-- How a call into a module ends.
pub data Attempt (R : Type 0) : Type 0 where
  returned : R → Attempt R
  panicked : String → Attempt R

-- What is called of a module that is to be loaded: its name, the number that stands for it in a
-- SecurityError, the capabilities of its metadata, and `initialize`, which gives the module after it.
pub record Loadable (M : Type 0) : Type 0 where
  pub name : M → String
  pub name_code : M → ℕ
  pub required_capabilities : M → List Capability
  pub initialize : M → Attempt (Result M ModuleError)

pub record InstantiationError : Type 0 where
  pub name : String
  pub source : ModuleError

pub data EnforcementError : Type 0 where
  denied_by : SecurityError → EnforcementError
  instantiation : InstantiationError → EnforcementError

unfoldable pub catch_module_panic :
    {R : Type 0} → String → Attempt (Result R ModuleError) → Result R ModuleError
catch_module_panic name (returned r) = r
catch_module_panic name (panicked reason) = err (crashed name reason)

module _ {M : Type 0} (mo : MaskOps) (ops : Loadable M) where
  unfoldable pub instantiate : M → Attempt (Result M InstantiationError)
  instantiate m = elim (ops.initialize m) [
    | panicked reason ↦ panicked reason
    | returned (ok m') ↦ returned (ok m')
    | returned (err e) ↦ returned (err (record { name = ops.name m; source = e }))
  ]

  -- `map_err(|error| error.source)`.
  unfoldable pub source_of : Attempt (Result M InstantiationError) → Attempt (Result M ModuleError)
  source_of (panicked reason) = panicked reason
  source_of (returned (ok m)) = returned (ok m)
  source_of (returned (err e)) = returned (err e.source)

  unfoldable pub sandboxed : M → Result M EnforcementError
  unfolding catch_module_panic instantiate source_of
  sandboxed m = elim (catch_module_panic (ops.name m) (source_of (instantiate m))) [
    | ok m' ↦ ok m'
    | err e ↦ err (instantiation (record { name = ops.name m; source = e }))
  ]

  -- The module is denied for the first capability of the list; `none` is the panic of `denied[0]`.
  unfoldable pub refuse : M → List Capability → Option (Result M EnforcementError)
  refuse m [] = none
  refuse m (c ∷ cs) = some (err (denied_by (capability_denied (ops.name_code m) c)))

  -- `granted` is the mask of the context.
  unfoldable pub enforce_and_instantiate : ℕ → M → Option (Result M EnforcementError)
  unfolding sandboxed refuse request is_fully_granted
  enforce_and_instantiate granted m =
      let grant = request mo (ops.required_capabilities m) granted in
      if is_fully_granted mo grant then some (sandboxed m) else refuse m grant.denied
