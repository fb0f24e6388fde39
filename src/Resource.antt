-- ===== src/Resource.antt =====
-- What the reconcilers of internal/operator do alike with their custom resource: the finalizer, the
-- `migrate` field, the status. `Kind` says how one kind of resource is read and written.
pub mod Laws
pub mod Trail
pub mod Live
pub mod Removal
pub mod Creation
pub mod Progress
use minio_operator_ext.Base.{String, Bool, Option, none, List, if◌then◌else◌}
use minio_operator_ext.Api.{ObjectMeta}
use minio_operator_ext.Client.{Op, Call, Env, Io, ◌>>=◌, ◌>>◌, pure, perform}
use minio_operator_ext.Reconciler.{finalizer, Reconciler, ReconcileResult, succeed}

pub record Kind (W R S : Type 0) : Type 0 where
  -- `x.ObjectMeta`, `x.Spec`, `x.Status.CurrentSpec`, `x.Spec.Migrate`
  pub meta : R → ObjectMeta
  pub spec : R → S
  pub current_spec : R → Option S
  pub migrate : R → Bool
  -- assignments to these
  pub set_finalizers : R → List String → R
  pub set_current_spec : R → Option S → R
  pub clear_migrate : R → R
  -- `r.Update(ctx, x)`: what is recorded of the call, and the call
  pub op : R → Op
  pub call : R → Call W R

module _ {W R S : Type 0} (env : Env W) (k : Kind W R S) where
  abbrev pub update : R → Io W R
  update x = perform (k.op x) (k.call x)

  -- `if x.Spec.Migrate { x.Spec.Migrate = false; err = r.Update(ctx, x) }`
  unfoldable pub drop_migrate : R → Io W R
  drop_migrate x = if k.migrate x then update (k.clear_migrate x) else pure x

  module _ (r : Reconciler) where
    -- Not marked for deletion, without the finalizer.
    unfoldable pub add_finalizer : R → Io W ReconcileResult
    add_finalizer x = do
      update (k.set_finalizers x (env.add_finalizer (k.meta x).finalizers finalizer))
      succeed r

    -- Marked for deletion, status unset.
    unfoldable pub clear_finalizer : R → Io W ReconcileResult
    clear_finalizer x = do
      update (k.set_finalizers x (env.remove_finalizer (k.meta x).finalizers finalizer))
      succeed r

    -- `x.Status.CurrentSpec = nil; err = r.Update(ctx, x)`
    unfoldable pub clear_status : R → Io W ReconcileResult
    clear_status x = do update (k.set_current_spec x none); succeed r
