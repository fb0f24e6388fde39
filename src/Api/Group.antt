-- ===== src/Api/Group.antt =====
-- pkg/api/bfiola.dev/v1/miniogroup.go and miniogroupbinding.go.
use minio_operator_ext.Base.{
  String, ◌≡◌, ◌↔◌, Bool, true, Option, ◌&&◌, arith, Eq, ◌==◌, string_eq, bool_eq,
}
use minio_operator_ext.Api.Common.{ObjectMeta, ResourceRef, resource_ref_eq}

pub record MinioGroupSpec : Type 0 where
  pub migrate : Bool
  pub name : String
  pub tenant_ref : ResourceRef

pub record MinioGroupStatus : Type 0 where
  pub synced : Option Bool
  pub current_spec : Option MinioGroupSpec

pub record MinioGroup : Type 0 where
  pub meta : ObjectMeta
  pub spec : MinioGroupSpec
  pub status : MinioGroupStatus

pub record MinioGroupBindingSpec : Type 0 where
  pub group : String
  pub migrate : Bool
  pub tenant_ref : ResourceRef
  pub user : String

pub record MinioGroupBindingStatus : Type 0 where
  pub synced : Option Bool
  pub current_spec : Option MinioGroupBindingSpec

pub record MinioGroupBinding : Type 0 where
  pub meta : ObjectMeta
  pub spec : MinioGroupBindingSpec
  pub status : MinioGroupBindingStatus

abbrev pub group_binding_spec_beq : MinioGroupBindingSpec → MinioGroupBindingSpec → Bool
group_binding_spec_beq a b =
    a.group == b.group && a.migrate == b.migrate && a.tenant_ref == b.tenant_ref && a.user == b.user

pub group_binding_spec_beq_iff :
    (a b : MinioGroupBindingSpec) → (group_binding_spec_beq a b ≡ true) ↔ (a ≡ b)
group_binding_spec_beq_iff a b = ground (
  arith,
  string_eq.same_iff a.group b.group,
  bool_eq.same_iff a.migrate b.migrate,
  resource_ref_eq.same_iff a.tenant_ref b.tenant_ref,
  string_eq.same_iff a.user b.user,
)

instance abbrev pub group_binding_spec_eq : Eq MinioGroupBindingSpec
group_binding_spec_eq = record {
  same = group_binding_spec_beq;
  same_iff = group_binding_spec_beq_iff;
}
