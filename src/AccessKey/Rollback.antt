-- ===== src/AccessKey/Rollback.antt =====
-- A creation of an access key that fails takes its secret back.
use minio_operator_ext.Base.{◌∷◌, ◌≡◌, false, arith}
use minio_operator_ext.Api.{MinioAccessKey, Secret}
use minio_operator_ext.Client.{Op, Error, err, error_of, is_panic, Env, Run}
use minio_operator_ext.Reconciler.{Reconciler}
use minio_operator_ext.AccessKey.Actions.{create_access_key}
use minio_operator_ext.AccessKey.{create_or_delete_secret}

module _ {W : Type 0} (env : Env W) (r : Reconciler) where
  -- Where the access key cannot be created in MinIO, and the creation does not panic, the last
  -- call that changes something is the deletion of the secret made for it, and the error of the
  -- creation is returned, also if the deletion fails.
  pub create_or_delete_secret-fails :
      (ak : MinioAccessKey) (secret : Secret) (e : Error) (s s1 : Run W)
      → create_access_key env r ak secret s ≡ (err e, s1)
      → is_panic e ≡ false
      → ((create_or_delete_secret env r ak secret s).0 ≡ err e)
        × ((create_or_delete_secret env r ak secret s).1.log
            ≡ record {
              op = Op.delete_secret secret;
              failure = error_of (env.delete_secret secret s1.world).0;
            }
              ∷ s1.log)
  unfolding create_or_delete_secret
  create_or_delete_secret-fails ak secret e s s1 failed regular = grind arith
