-- ===== src/Resource/Laws.antt =====
-- What is relied on of a kind of resource, and of the API server that stores it.
use minio_operator_ext.Base.{String, ◌≡◌, Option, some, true, false, List}
use minio_operator_ext.Api.{ObjectMeta}
use minio_operator_ext.Client.{ok, Env}
use minio_operator_ext.Reconciler.{finalizer}
use minio_operator_ext.Lifecycle.{view, written}
use minio_operator_ext.Resource.{Kind}

-- `controllerutil`: a finalizer that was added is found, one that was removed is not.
pub record Finalizers {W : Type 0} (env : Env W) : Type 0 where
  pub added :
      (fs : List String) → env.contains_finalizer (env.add_finalizer fs finalizer) finalizer ≡ true
  pub removed :
      (fs : List String)
      → env.contains_finalizer (env.remove_finalizer fs finalizer) finalizer ≡ false

-- The parts of the metadata that an update leaves as they were sent.
pub record KeepsMeta (sent stored : ObjectMeta) : Type 0 where
  pub name : stored.name ≡ sent.name
  pub namespace : stored.namespace ≡ sent.namespace
  pub deletion_timestamp : stored.deletion_timestamp ≡ sent.deletion_timestamp
  pub finalizers : stored.finalizers ≡ sent.finalizers

module _ {W R S : Type 0} (env : Env W) (k : Kind W R S) where
  -- An assignment changes what it names and nothing else that matters here.
  pub record IsKind : Type 0 where
    pub writes : (x : R) → written env (k.op x) ≡ some (view env (k.meta x) (k.current_spec x))
    pub meta_of_finalizers :
        (x : R) (fs : List String)
        → k.meta (k.set_finalizers x fs) ≡ record (k.meta x) { finalizers = fs }
    pub current_of_finalizers :
        (x : R) (fs : List String) → k.current_spec (k.set_finalizers x fs) ≡ k.current_spec x
    pub meta_of_status : (x : R) (c : Option S) → k.meta (k.set_current_spec x c) ≡ k.meta x
    pub current_of_status : (x : R) (c : Option S) → k.current_spec (k.set_current_spec x c) ≡ c
    pub meta_of_migrate : (x : R) → k.meta (k.clear_migrate x) ≡ k.meta x
    pub current_of_migrate : (x : R) → k.current_spec (k.clear_migrate x) ≡ k.current_spec x

  -- `Update` of the API server: an accepted update answers with what was sent, at a new resource
  -- version.
  pub record Echoes : Type 0 where
    pub meta : (x x' : R) (w : W) → (k.call x w).0 ≡ ok x' → KeepsMeta (k.meta x) (k.meta x')
    pub spec : (x x' : R) (w : W) → (k.call x w).0 ≡ ok x' → k.spec x' ≡ k.spec x
    pub status : (x x' : R) (w : W) → (k.call x w).0 ≡ ok x' → k.current_spec x' ≡ k.current_spec x
