-- ===== src/Api/Policy.antt =====
-- pkg/api/bfiola.dev/v1/miniopolicy.go and miniopolicybinding.go.
use minio_operator_ext.Base.{
  String, ◌≡◌, ◌↔◌, Bool, true, Option, List, ◌&&◌, arith, Eq, ◌==◌, string_eq, bool_eq, list_eq,
  list_beq_iff,
}
use minio_operator_ext.Api.Common.{ObjectMeta, ResourceRef, resource_ref_eq}

pub record MinioPolicyStatement : Type 0 where
  pub action : List String
  pub effect : String
  pub resource : List String

pub record MinioPolicySpec : Type 0 where
  pub migrate : Bool
  pub name : String
  pub statement : List MinioPolicyStatement
  pub tenant_ref : ResourceRef
  pub version : String

pub record MinioPolicyStatus : Type 0 where
  pub synced : Option Bool
  pub current_spec : Option MinioPolicySpec

pub record MinioPolicy : Type 0 where
  pub meta : ObjectMeta
  pub spec : MinioPolicySpec
  pub status : MinioPolicyStatus

pub record MinioPolicyBindingIdentity : Type 0 where
  pub builtin : String
  pub ldap : String

pub record MinioPolicyBindingSpec : Type 0 where
  pub group : MinioPolicyBindingIdentity
  pub migrate : Bool
  pub policy : String
  pub tenant_ref : ResourceRef
  pub user : MinioPolicyBindingIdentity

pub record MinioPolicyBindingStatus : Type 0 where
  pub synced : Option Bool
  pub current_spec : Option MinioPolicyBindingSpec

pub record MinioPolicyBinding : Type 0 where
  pub meta : ObjectMeta
  pub spec : MinioPolicyBindingSpec
  pub status : MinioPolicyBindingStatus

abbrev pub statement_beq : MinioPolicyStatement → MinioPolicyStatement → Bool
statement_beq a b = a.action == b.action && a.effect == b.effect && a.resource == b.resource

pub statement_beq_iff : (a b : MinioPolicyStatement) → (statement_beq a b ≡ true) ↔ (a ≡ b)
statement_beq_iff a b = ground (
  arith,
  list_beq_iff ⦃e = string_eq⦄ a.action b.action,
  string_eq.same_iff a.effect b.effect,
  list_beq_iff ⦃e = string_eq⦄ a.resource b.resource,
)

instance abbrev pub statement_eq : Eq MinioPolicyStatement
statement_eq = record { same = statement_beq; same_iff = statement_beq_iff }

abbrev pub identity_beq : MinioPolicyBindingIdentity → MinioPolicyBindingIdentity → Bool
identity_beq a b = a.builtin == b.builtin && a.ldap == b.ldap

pub identity_beq_iff : (a b : MinioPolicyBindingIdentity) → (identity_beq a b ≡ true) ↔ (a ≡ b)
identity_beq_iff a b =
    ground (arith, string_eq.same_iff a.builtin b.builtin, string_eq.same_iff a.ldap b.ldap)

instance abbrev pub identity_eq : Eq MinioPolicyBindingIdentity
identity_eq = record { same = identity_beq; same_iff = identity_beq_iff }

abbrev pub policy_binding_spec_beq : MinioPolicyBindingSpec → MinioPolicyBindingSpec → Bool
policy_binding_spec_beq a b =
    a.group == b.group
    && a.migrate == b.migrate
    && a.policy == b.policy
    && a.tenant_ref == b.tenant_ref
    && a.user == b.user

pub policy_binding_spec_beq_iff :
    (a b : MinioPolicyBindingSpec) → (policy_binding_spec_beq a b ≡ true) ↔ (a ≡ b)
policy_binding_spec_beq_iff a b = ground (
  arith,
  identity_eq.same_iff a.group b.group,
  bool_eq.same_iff a.migrate b.migrate,
  string_eq.same_iff a.policy b.policy,
  resource_ref_eq.same_iff a.tenant_ref b.tenant_ref,
  identity_eq.same_iff a.user b.user,
)

instance abbrev pub policy_binding_spec_eq : Eq MinioPolicyBindingSpec
policy_binding_spec_eq = record {
  same = policy_binding_spec_beq;
  same_iff = policy_binding_spec_beq_iff;
}
