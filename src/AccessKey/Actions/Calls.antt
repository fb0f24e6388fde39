-- ===== src/AccessKey/Actions/Calls.antt =====
-- The single calls of the access key reconciler, and the tests on what they answer, in
-- internal/operator/minio_access_key_reconciler.go.
use text.Mathlib.Text.{find?}
use minio_operator_ext.Base.{
  String, Bool, true, false, not, ◌&&◌, ◌||◌, Option, none, some, List, [], if◌then◌else◌, ◌==◌,
  string_eq, option_eq,
}
use minio_operator_ext.Api.{
  ObjectMeta, MinioAccessKey, MinioAccessKeySpec, MinioAccessKeyPolicy, Secret, Connection,
  AddServiceAccountReq, UpdateServiceAccountReq, InfoServiceAccountResp, time_eq,
}
use minio_operator_ext.Client.{
  Error, Op, ok, err, Env, Io, ◌>>=◌, pure, throw, lift, query, perform, attempt,
}
use minio_operator_ext.Resource.{Kind}
use minio_operator_ext.Policy.Hash.{access_key_policy_hash}

abbrev pub set_current_spec : MinioAccessKey → Option MinioAccessKeySpec → MinioAccessKey
set_current_spec ak c = record ak { status = record ak.status { current_spec = c } }

-- `v1.MinioAccessKeyPolicy{}`
abbrev pub no_policy : MinioAccessKeyPolicy
no_policy = record { statement = []; version = "" }

-- `strings.Contains(err.Error(), text)`
abbrev pub says : {W : Type 0} → Env W → Error → String → Bool
says env e text = elim (find? (env.error_text e) text) [ none ↦ false | some _ ↦ true ]

-- Does what MinIO has differ from what the status says?
abbrev pub remote_differs :
    {W : Type 0} → Env W → InfoServiceAccountResp → MinioAccessKeyPolicy → MinioAccessKeySpec → Bool
remote_differs env msa policy current =
    not (msa.description == current.description)
    || not (msa.expiration == current.expiration)
    || not (msa.name == current.name)
    || not (access_key_policy_hash env policy == access_key_policy_hash env current.policy)

-- Does the spec differ from what the status says?
abbrev pub spec_differs : {W : Type 0} → Env W → MinioAccessKeySpec → MinioAccessKeySpec → Bool
spec_differs env current spec =
    not (current.description == spec.description)
    || not (current.expiration == spec.expiration)
    || not (current.name == spec.name)
    || not (access_key_policy_hash env current.policy == access_key_policy_hash env spec.policy)

module _ {W : Type 0} (env : Env W) where
  -- `r.Update(ctx, ak)`
  abbrev pub update : MinioAccessKey → Io W MinioAccessKey
  update ak = perform (Op.update_access_key ak) (env.update_access_key ak)

  -- `r.Delete(ctx, secret)`
  abbrev pub delete_secret : Secret → Io W (Unit {0})
  delete_secret secret = perform (Op.delete_secret secret) (env.delete_secret secret)

  -- `mtac.UpdateServiceAccount(ctx, accessKey, req)`
  abbrev pub update_service_account :
      Connection → String → UpdateServiceAccountReq → Io W (Unit {0})
  update_service_account mtac key req =
      perform (Op.update_service_account mtac key req)
        (env.act (Op.update_service_account mtac key req))

  -- `mtac.DeleteServiceAccount(ctx, accessKey)`
  abbrev pub delete_service_account : Connection → String → Io W (Unit {0})
  delete_service_account mtac key =
      perform (Op.delete_service_account mtac key) (env.act (Op.delete_service_account mtac key))

  -- `mtac.AddServiceAccount(ctx, req)`, or `AddServiceAccountLDAP`
  abbrev pub add_service_account : Bool → Connection → AddServiceAccountReq → Io W (Unit {0})
  add_service_account ldap mtac req =
      let op : Op =
        if ldap then Op.add_service_account_ldap mtac req else Op.add_service_account mtac req in
      perform op (env.act op)

  abbrev pub clear_migrate : MinioAccessKey → MinioAccessKey
  clear_migrate ak = record ak { spec = record ak.spec { migrate = false } }

  abbrev pub set_finalizers : MinioAccessKey → List String → MinioAccessKey
  set_finalizers ak fs = record ak { meta = record ak.meta { finalizers = fs } }

  abbrev pub kind : Kind W MinioAccessKey MinioAccessKeySpec
  kind = record {
    meta = λ ak. ak.meta;
    spec = λ ak. ak.spec;
    current_spec = λ ak. ak.status.current_spec;
    migrate = λ ak. ak.spec.migrate;
    set_finalizers = set_finalizers;
    set_current_spec = set_current_spec;
    clear_migrate = clear_migrate;
    op = λ ak. Op.update_access_key ak;
    call = env.update_access_key;
  }

  -- `if ak.Spec.Migrate { ak.Spec.Migrate = false; r.Update(ctx, ak) }`
  unfoldable pub drop_migrate : MinioAccessKey → Io W MinioAccessKey
  drop_migrate ak = if ak.spec.migrate then update (clear_migrate ak) else pure ak

  -- `r.Get` of a secret, where a missing one is no error.
  unfoldable pub find_secret : ObjectMeta → String → Io W (Option Secret)
  find_secret meta name = do
    got ← attempt (query (env.get_secret (record { namespace = meta.namespace; name = name })))
    elim got [
      | ok secret ↦ pure (some secret)
      | err e ↦ if env.is_not_found e then pure none else throw e
    ]

  -- The policy of a request: `empty` if the spec has none.
  unfoldable pub marshal_spec_policy : MinioAccessKeyPolicy → Io W (Option String)
  marshal_spec_policy policy =
      if access_key_policy_hash env policy == access_key_policy_hash env no_policy
      then pure none
      else (do text ← lift (env.marshal_policy policy.statement policy.version); pure (some text))

  -- The policy that MinIO has for the access key.
  unfoldable pub remote_policy : InfoServiceAccountResp → Io W MinioAccessKeyPolicy
  remote_policy msa =
      if not msa.implied_policy && not (msa.policy == "")
      then lift (env.unmarshal_access_key_policy msa.policy)
      else pure no_policy
