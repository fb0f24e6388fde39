-- ===== src/Api/Bucket.antt =====
-- pkg/api/bfiola.dev/v1/miniobucket.go. The field `XMLName` of each type is left out: the program
-- clears it by way of JSON before it compares.
use native.Mathlib.Decide.{ℕ_discrete}
use minio_operator_ext.Base.{
  ℕ, String, Bool, Option, List, [], ◌∷◌, Eq, string-discrete, beq_of, beq_of_iff,
}
use minio_operator_ext.Api.Common.{ObjectMeta, ResourceRef, Time}

-- A Go `int`: `negsuc n` is -(n + 1).
pub data ℤ : Type 0 where
  pos : ℕ → ℤ
  negsuc : ℕ → ℤ

abbrev pub deletion_policy_always : String
deletion_policy_always = "Always"

abbrev pub deletion_policy_if_empty : String
deletion_policy_if_empty = "IfEmpty"

pub record MinioBucketVersioningConfiguration : Type 0 where
  pub status : String
  pub mfa_delete : String
  pub excluded_prefixes : List String
  pub exclude_folders : Bool

pub record MinioBucketLifecycleExpiration : Type 0 where
  pub date : Time
  pub days : ℤ
  pub delete_marker : Bool
  pub delete_all : Bool

pub record MinioBucketLifecycleTag : Type 0 where
  pub key : String
  pub value : String

pub record MinioBucketLifecycleAnd : Type 0 where
  pub prefix : String
  pub tags : List MinioBucketLifecycleTag
  pub object_size_less_than : ℤ
  pub object_size_greater_than : ℤ

pub record MinioBucketLifecycleFilter : Type 0 where
  pub all_of : MinioBucketLifecycleAnd  -- `And`
  pub prefix : String
  pub tag : MinioBucketLifecycleTag
  pub object_size_less_than : ℤ
  pub object_size_greater_than : ℤ

pub record MinioBucketLifecycleNoncurrentVersionExpiration : Type 0 where
  pub noncurrent_days : ℤ
  pub newer_noncurrent_versions : ℤ

pub record MinioBucketLifecycleNoncurrentVersionTransition : Type 0 where
  pub storage_class : String
  pub noncurrent_days : ℤ
  pub newer_noncurrent_versions : ℤ

pub record MinioBucketLifecycleTransition : Type 0 where
  pub date : Time
  pub storage_class : String
  pub days : ℤ

pub record MinioBucketLifecycleRule : Type 0 where
  pub days_after_initiation : ℤ  -- of `AbortIncompleteMultipartUpload`
  pub expiration : MinioBucketLifecycleExpiration
  pub del_marker_expiration_days : ℤ  -- of `DelMarkerExpiration`
  pub id : String
  pub rule_filter : MinioBucketLifecycleFilter
  pub noncurrent_version_expiration : MinioBucketLifecycleNoncurrentVersionExpiration
  pub noncurrent_version_transition : MinioBucketLifecycleNoncurrentVersionTransition
  pub prefix : String
  pub status : String
  pub transition : MinioBucketLifecycleTransition

pub record MinioBucketLifecycleConfiguration : Type 0 where
  pub rules : List MinioBucketLifecycleRule

pub record MinioBucketSpec : Type 0 where
  pub deletion_policy : String
  pub lifecycle : Option MinioBucketLifecycleConfiguration
  pub migrate : Bool
  pub name : String
  pub tenant_ref : ResourceRef
  pub versioning : Option MinioBucketVersioningConfiguration

pub record MinioBucketStatus : Type 0 where
  pub synced : Option Bool
  pub current_spec : Option MinioBucketSpec

pub record MinioBucket : Type 0 where
  pub meta : ObjectMeta
  pub spec : MinioBucketSpec
  pub status : MinioBucketStatus

pub versioning-discrete : Discrete MinioBucketVersioningConfiguration
versioning-discrete = hlevel string-discrete

pub lifecycle-discrete : Discrete MinioBucketLifecycleConfiguration
lifecycle-discrete = hlevel (string-discrete, ℕ_discrete)

instance abbrev pub versioning_eq : Eq MinioBucketVersioningConfiguration
versioning_eq = record {
  same = beq_of versioning-discrete;
  same_iff = beq_of_iff versioning-discrete;
}

instance abbrev pub lifecycle_eq : Eq MinioBucketLifecycleConfiguration
lifecycle_eq = record { same = beq_of lifecycle-discrete; same_iff = beq_of_iff lifecycle-discrete }

-- `cmp.Equal` on lifecycles: like `reflect.DeepEqual`, but a time is compared by its instant alone.
abbrev without_zone : Time → Time
without_zone t = record t { location = "" }

abbrev without_zones : List MinioBucketLifecycleRule → List MinioBucketLifecycleRule
without_zones [] = []
without_zones (rule ∷ rules) =
    record rule {
      expiration = record rule.expiration { date = without_zone rule.expiration.date };
      transition = record rule.transition { date = without_zone rule.transition.date };
    }
    ∷ without_zones rules

abbrev pub lifecycle_equal :
    MinioBucketLifecycleConfiguration → MinioBucketLifecycleConfiguration → Bool
lifecycle_equal a b =
    lifecycle_eq.same (record { rules = without_zones a.rules })
      (record { rules = without_zones b.rules })
