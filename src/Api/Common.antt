-- ===== src/Api/Common.antt =====
-- pkg/api/bfiola.dev/v1/common.go: references to other resources, and the object metadata.
use minio_operator_ext.Base.{
  ℕ, String, ◌≡◌, ◌↔◌, Bool, true, Option, List, ◌&&◌, arith, Eq, ◌==◌, ℕ_eq, string_eq,
  if◌then◌else◌,
}

-- A `time.Time`: the instant, and the location that `reflect.DeepEqual` compares too.
pub record Time : Type 0 where
  pub instant : ℕ
  pub location : String

-- The fields of `metav1.ObjectMeta` that the program reads or writes.
pub record ObjectMeta : Type 0 where
  pub name : String
  pub namespace : String
  pub resource_version : String
  pub deletion_timestamp : Option Time
  pub finalizers : List String

-- `types.NamespacedName`.
pub record NamespacedName : Type 0 where
  pub namespace : String
  pub name : String

pub record ResourceRef : Type 0 where
  pub name : String
  pub namespace : String

pub record ResourceKeyRef : Type 0 where
  pub key : String
  pub name : String
  pub namespace : String

-- `if rrns == "" { rrns = ns }`
abbrev pub default_namespace : String → String → String
default_namespace own ns = if own == "" then ns else own

-- `ResourceRef.SetDefaultNamespace`
unfoldable pub set_default_namespace : ResourceRef → String → ResourceRef
set_default_namespace rr ns = record {
  name = rr.name;
  namespace = default_namespace rr.namespace ns;
}

-- `ResourceKeyRef.SetDefaultNamespace`
unfoldable pub set_default_key_namespace : ResourceKeyRef → String → ResourceKeyRef
set_default_key_namespace rkr ns = record {
  key = rkr.key;
  name = rkr.name;
  namespace = default_namespace rkr.namespace ns;
}

abbrev pub time_beq : Time → Time → Bool
time_beq a b = a.instant == b.instant && a.location == b.location

pub time_beq_iff : (a b : Time) → (time_beq a b ≡ true) ↔ (a ≡ b)
time_beq_iff a b =
    ground (arith, ℕ_eq.same_iff a.instant b.instant, string_eq.same_iff a.location b.location)

instance abbrev pub time_eq : Eq Time
time_eq = record { same = time_beq; same_iff = time_beq_iff }

abbrev pub resource_ref_beq : ResourceRef → ResourceRef → Bool
resource_ref_beq a b = a.name == b.name && a.namespace == b.namespace

pub resource_ref_beq_iff : (a b : ResourceRef) → (resource_ref_beq a b ≡ true) ↔ (a ≡ b)
resource_ref_beq_iff a b =
    ground (arith, string_eq.same_iff a.name b.name, string_eq.same_iff a.namespace b.namespace)

instance abbrev pub resource_ref_eq : Eq ResourceRef
resource_ref_eq = record { same = resource_ref_beq; same_iff = resource_ref_beq_iff }

-- `ref != (v1.ResourceKeyRef{})`
abbrev pub is_set_ref : ResourceKeyRef → Bool
is_set_ref r = if r.key == "" && r.name == "" && r.namespace == "" then Bool.false else true
