-- ===== src/Operator/Register.antt =====
-- The `register` functions of the seven reconcilers of internal/operator, and the interface
-- `reconciler` of internal/operator/operator.go behind which they are called.
use minio_operator_ext.Base.{String}
use minio_operator_ext.Client.{Io, query}
use minio_operator_ext.Reconciler.{Reconciler}
use minio_operator_ext.Operator.Controllers.{Controller}
use minio_operator_ext.Operator.Host.{Step, Host, Boot, tell}

-- The types that they give to `For`.
abbrev pub bucket_kind : String
bucket_kind = "MinioBucket"

abbrev pub group_kind : String
group_kind = "MinioGroup"

abbrev pub group_binding_kind : String
group_binding_kind = "MinioGroupBinding"

abbrev pub policy_kind : String
policy_kind = "MinioPolicy"

abbrev pub policy_binding_kind : String
policy_binding_kind = "MinioPolicyBinding"

abbrev pub user_kind : String
user_kind = "MinioUser"

abbrev pub access_key_kind : String
access_key_kind = "MinioAccessKey"

unfoldable pub kind_name : Controller → String
kind_name Controller.bucket = bucket_kind
kind_name Controller.group = group_kind
kind_name Controller.group_binding = group_binding_kind
kind_name Controller.policy = policy_kind
kind_name Controller.policy_binding = policy_binding_kind
kind_name Controller.user = user_kind
kind_name Controller.access_key = access_key_kind

module _ {W Config Scheme Manager : Type 0} (host : Host W Config Scheme Manager) where
  unfoldable pub register_bucket : Manager → Reconciler → Io (Boot W) (Unit {0})
  register_bucket m r =
      query (tell (Step.build Controller.bucket r) (host.build m bucket_kind Controller.bucket r))

  unfoldable pub register_group : Manager → Reconciler → Io (Boot W) (Unit {0})
  register_group m r =
      query (tell (Step.build Controller.group r) (host.build m group_kind Controller.group r))

  unfoldable pub register_group_binding : Manager → Reconciler → Io (Boot W) (Unit {0})
  register_group_binding m r = query (
      tell (Step.build Controller.group_binding r)
        (host.build m group_binding_kind Controller.group_binding r))

  unfoldable pub register_policy : Manager → Reconciler → Io (Boot W) (Unit {0})
  register_policy m r =
      query (tell (Step.build Controller.policy r) (host.build m policy_kind Controller.policy r))

  unfoldable pub register_policy_binding : Manager → Reconciler → Io (Boot W) (Unit {0})
  register_policy_binding m r = query (
      tell (Step.build Controller.policy_binding r)
        (host.build m policy_binding_kind Controller.policy_binding r))

  unfoldable pub register_user : Manager → Reconciler → Io (Boot W) (Unit {0})
  register_user m r =
      query (tell (Step.build Controller.user r) (host.build m user_kind Controller.user r))

  unfoldable pub register_access_key : Manager → Reconciler → Io (Boot W) (Unit {0})
  register_access_key m r = query (
      tell (Step.build Controller.access_key r)
        (host.build m access_key_kind Controller.access_key r))

  -- `r.register(m)`
  unfoldable pub register : Manager → Reconciler → Controller → Io (Boot W) (Unit {0})
  register m r Controller.bucket = register_bucket m r
  register m r Controller.group = register_group m r
  register m r Controller.group_binding = register_group_binding m r
  register m r Controller.policy = register_policy m r
  register m r Controller.policy_binding = register_policy_binding m r
  register m r Controller.user = register_user m r
  register m r Controller.access_key = register_access_key m r
