-- ===== src/Reconciler.antt =====
-- internal/operator/operator.go: what the reconcilers share.
use minio_operator_ext.Base.{
  ℕ, String, ◌≡◌, refl, Bool, true, false, not, Option, none, some, if◌then◌else◌,
}
use minio_operator_ext.Api.{ObjectMeta}
use minio_operator_ext.Client.{
  ok, err, Call, Codec, Env, Io, lift, ◌>>=◌, ◌>>◌, pure, query, attempt, check,
}

abbrev pub finalizer : String
finalizer = "bfiola.dev/minio-operator-ext"

-- The fields of a reconciler; the client and the logger are not among them.
pub record Reconciler : Type 0 where
  pub minio_operator_namespace : String
  pub sync_interval : ℕ

-- `reconcile.Result`
pub record ReconcileResult : Type 0 where
  pub requeue_after : ℕ

-- `nilToEmpty`, at the zero value of the type
abbrev pub nil_to_empty : {A : Type 0} → A → Option A → A
nil_to_empty zero_value none = zero_value
nil_to_empty zero_value (some v) = v

module _ {W : Type 0} where
  -- `convertViaXML`: `dst` is what the destination holds before.
  abbrev pub convert_via_xml : {S T : Type 0} → Codec S → Codec T → S → T → Io W T
  convert_via_xml from to src dst = do
    text ← lift (from.xml_marshal src)
    tmp ← lift (to.xml_unmarshal text)
    json ← lift (to.json_marshal tmp)
    lift (to.json_unmarshal json dst)

  -- `success`, and `succeed`
  abbrev pub succeed : Reconciler → Io W ReconcileResult
  succeed r = pure (record { requeue_after = r.sync_interval })

  -- `err := r.Get(…); if err != nil { return reconcile.Result{}, client.IgnoreNotFound(err) }`
  abbrev pub with_resource :
      {A : Type 0} → Env W → Call W A → (A → Io W ReconcileResult) → Io W ReconcileResult
  with_resource env get k = do
    got ← attempt (query get)
    elim got [
      | ok x ↦ k x
      | err e ↦ (check (env.ignore_not_found e) >> pure (record { requeue_after = 0 }))
    ]

-- The branches that every `Reconcile` takes behind `r.Get`, on the deletion mark, the status and
-- the finalizer. No branch that finds the status set goes on to the one for an unset status.
unfoldable pub branch : {S R : Type 0} → Bool → Bool → Option S → (S → R) → R → R → (S → R) → R → R
branch zero_time guarded current on_delete on_released on_unguarded on_managed on_new =
    if not zero_time
    then elim current [ some c ↦ on_delete c | none ↦ on_released ]
    else if not guarded
    then on_unguarded
    else elim current [ some c ↦ on_managed c | none ↦ on_new ]

module _ {W : Type 0} (env : Env W) where
  abbrev pub zero_time : ObjectMeta → Bool
  zero_time meta = env.is_zero meta.deletion_timestamp

  abbrev pub guarded : ObjectMeta → Bool
  guarded meta = env.contains_finalizer meta.finalizers finalizer

  unfoldable pub dispatch :
      {S R : Type 0} → ObjectMeta → Option S → (S → R) → R → R → (S → R) → R → R
  unfolding branch
  dispatch meta current = branch (zero_time meta) (guarded meta) current

-- What holds of each branch under its condition holds of the whole.
branch_elim :
    {S R : Type 0} (P : R → Type 0) (z f : Bool) (current : Option S) {on_delete : S → R}
    {on_released on_unguarded : R} {on_managed : S → R} {on_new : R}
    → ((c : S) → z ≡ false → current ≡ some c → P (on_delete c))
    → (z ≡ false → current ≡ none → P on_released)
    → (z ≡ true → f ≡ false → P on_unguarded)
    → ((c : S) → z ≡ true → f ≡ true → current ≡ some c → P (on_managed c))
    → (z ≡ true → f ≡ true → current ≡ none → P on_new)
    → P (branch z f current on_delete on_released on_unguarded on_managed on_new)
unfolding branch
branch_elim P false f (some c) d l u m n = d c refl refl
branch_elim P false f none d l u m n = l refl refl
branch_elim P true false current d l u m n = u refl refl
branch_elim P true true (some c) d l u m n = m c refl refl refl
branch_elim P true true none d l u m n = n refl refl refl

module _ {W : Type 0} (env : Env W) where
  pub dispatch_elim :
      {S R : Type 0} (P : R → Type 0) (meta : ObjectMeta) (current : Option S) {on_delete : S → R}
      {on_released on_unguarded : R} {on_managed : S → R} {on_new : R}
      → ((c : S) → zero_time env meta ≡ false → current ≡ some c → P (on_delete c))
      → (zero_time env meta ≡ false → current ≡ none → P on_released)
      → (zero_time env meta ≡ true → guarded env meta ≡ false → P on_unguarded)
      → ((c : S)
          → zero_time env meta ≡ true
          → guarded env meta ≡ true
          → current ≡ some c
          → P (on_managed c))
      → (zero_time env meta ≡ true → guarded env meta ≡ true → current ≡ none → P on_new)
      → P (dispatch env meta current on_delete on_released on_unguarded on_managed on_new)
  unfolding dispatch
  dispatch_elim P meta current = branch_elim P (zero_time env meta) (guarded env meta) current
