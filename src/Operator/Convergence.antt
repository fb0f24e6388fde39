-- ===== src/Operator/Convergence.antt =====
-- Successful reconciliations bring every resource, in two steps at most, to what its user asked for.
use minio_operator_ext.Base.{
  ◌≡◌, refl, ◌∙◌, subst, ℕ, zero, suc, inl, inr, ◌+◌, ◌≤◌, ◌<◌, ◌⊎◌, true, false, some, List, [],
  ◌∷◌, arith,
}
use minio_operator_ext.Api.{NamespacedName}
use minio_operator_ext.Client.{Result, ok, err, Env, Io, Run}
use minio_operator_ext.Lifecycle.{View, view, latest}
use minio_operator_ext.Reconciler.{Reconciler, ReconcileResult}
use minio_operator_ext.Resource.{Kind}
use minio_operator_ext.Resource.Progress.{rank, Nears}
use minio_operator_ext.Operator.Controllers.{Controller, reconcile_of, view_of, read_view, Server}
use minio_operator_ext.Bucket
use minio_operator_ext.Bucket.Progress.{reconcile_bucket-Nears}
use minio_operator_ext.Group
use minio_operator_ext.Group.Progress.{reconcile_group-Nears}
use minio_operator_ext.GroupBinding
use minio_operator_ext.GroupBinding.Progress.{reconcile_group_binding-Nears}
use minio_operator_ext.Policy
use minio_operator_ext.Policy.Progress.{reconcile_policy-Nears}
use minio_operator_ext.PolicyBinding
use minio_operator_ext.PolicyBinding.Progress.{reconcile_policy_binding-Nears}
use minio_operator_ext.User
use minio_operator_ext.User.Progress.{reconcile_user-Nears}
use minio_operator_ext.AccessKey
use minio_operator_ext.AccessKey.Progress.{reconcile_access_key-Nears}

-- On deletion, nothing is left in MinIO and the finalizer is gone; before, the finalizer is there and
-- the MinIO object was made.
abbrev pub IsSettled : View → Type 0
IsSettled v =
    ((v.deleting ≡ true) × (v.managed ≡ false) × (v.guarded ≡ false))
    ⊎ ((v.deleting ≡ false) × (v.managed ≡ true) × (v.guarded ≡ true))

rank-IsSettled : (v : View) → rank v ≡ 0 → IsSettled v
rank-IsSettled v e = ground (arith, e)

rank_bound : (v : View) → rank v ≤ 2
rank_bound v = ground arith

module _ {W : Type 0} (env : Env W) where
  view_of-Nears :
      {R S : Type 0} (k : Kind W R S) (x : Result R) (m : Io W ReconcileResult) (s : Run W)
      (v : View)
      → view_of env k x ≡ some v
      → ((y : R)
          → x ≡ ok y
          → 0 < rank (view env (k.meta y) (k.current_spec y))
          → Nears env (view env (k.meta y) (k.current_spec y)) m s)
      → 0 < rank v
      → Nears env v m s
  view_of-Nears k (ok y) m s v e h = subst (λ u. 0 < rank u → Nears env u m s) (cc) (h y refl)
  view_of-Nears k (err _) m s v e h = absurd (cc)

  pub reconcile_of-Nears :
      Server env
      → (c : Controller) (r : Reconciler) (req : NamespacedName) (w : W) (v : View)
      → read_view env c req w ≡ some v
      → 0 < rank v
      → Nears env v (reconcile_of env c r req) (record { world = w; log = [] })
  unfolding reconcile_of
  reconcile_of-Nears server Controller.bucket r req w v e =
      view_of-Nears (Bucket.kind env) (env.get_bucket req w).0 (Bucket.reconcile env r req)
        (record { world = w; log = [] }) v e (reconcile_bucket-Nears env r server.finalizers req w)
  reconcile_of-Nears server Controller.group r req w v e =
      view_of-Nears (Group.kind env) (env.get_group req w).0 (Group.reconcile env r req)
        (record { world = w; log = [] }) v e (reconcile_group-Nears env r server.finalizers req w)
  reconcile_of-Nears server Controller.group_binding r req w v e =
      view_of-Nears (GroupBinding.kind env) (env.get_group_binding req w).0
        (GroupBinding.reconcile env r req) (record { world = w; log = [] }) v e
        (reconcile_group_binding-Nears env r server.finalizers req w)
  reconcile_of-Nears server Controller.policy r req w v e =
      view_of-Nears (Policy.kind env) (env.get_policy req w).0 (Policy.reconcile env r req)
        (record { world = w; log = [] }) v e (reconcile_policy-Nears env r server.finalizers req w)
  reconcile_of-Nears server Controller.policy_binding r req w v e =
      view_of-Nears (PolicyBinding.kind env) (env.get_policy_binding req w).0
        (PolicyBinding.reconcile env r req) (record { world = w; log = [] }) v e
        (reconcile_policy_binding-Nears env r server.finalizers req w)
  reconcile_of-Nears server Controller.user r req w v e =
      view_of-Nears (User.kind env) (env.get_user req w).0 (User.reconcile env r req)
        (record { world = w; log = [] }) v e (reconcile_user-Nears env r server.finalizers req w)
  reconcile_of-Nears server Controller.access_key r req w v e =
      view_of-Nears (AccessKey.Actions.kind env) (env.get_access_key req w).0
        (AccessKey.reconcile env r req) (record { world = w; log = [] }) v e
        (reconcile_access_key-Nears env r server.finalizers server.access_keys req w)

  -- `n` successful reconciliations in a row, each of the resource that the one before it left, and each
  -- of a resource that was not settled: from the view `v` to the view `u`.
  pub data Attempts (c : Controller) (v : View) : ℕ → View → Type 0 where
    start : Attempts c v 0 v
    next :
        (n : ℕ) (u : View) (r : Reconciler) (req : NamespacedName) (w : W) (res : ReconcileResult)
        → Attempts c v n u
        → read_view env c req w ≡ some u
        → 0 < rank u
        → (reconcile_of env c r req (record { world = w; log = [] })).0 ≡ ok res
        → Attempts c v
            (suc n)
            (latest env u (reconcile_of env c r req (record { world = w; log = [] })).1.log)

  Attempts-rank :
      Server env
      → (c : Controller) (v : View) (n : ℕ) (u : View) → Attempts c v n u
      → (n + rank u ≤ rank v) × (u.deleting ≡ v.deleting)
  Attempts-rank server c v n u Attempts.start = ground arith
  Attempts-rank server c v n u (Attempts.next m t r req w res past e unsettled succeeds) =
      let closer = reconcile_of-Nears server c r req w t e unsettled res succeeds in
      let before = Attempts-rank server c v m t past in ground (arith, closer, before)

  -- Given finalizers that `controllerutil` adds and removes, and an API server that stores what
  -- it accepts: however many reconciliations of one controller succeed in a row, each of the
  -- resource as the one before left it, and each of a resource that is not yet as its user asked
  -- for, they are two at most.
  pub Attempts-bound :
      Server env → (c : Controller) (v : View) (n : ℕ) (u : View) → Attempts c v n u → n ≤ 2
  Attempts-bound server c v n u past =
      let (bound, _) = Attempts-rank server c v n u past in
      let most = rank_bound v in ground (arith, bound, most)

  -- Successful reconciliations in a row, each of the resource that the one before it left, settled
  -- or not: the views before and after each of them, newest first.
  pub data Successes (c : Controller) : List View → Type 0 where
    begin : (v : View) → Successes c (v ∷ [])
    succeed :
        (u : View) (past : List View) (r : Reconciler) (req : NamespacedName) (w : W)
        (res : ReconcileResult)
        → Successes c (u ∷ past)
        → read_view env c req w ≡ some u
        → (reconcile_of env c r req (record { world = w; log = [] })).0 ≡ ok res
        → Successes c (
            latest env u (reconcile_of env c r req (record { world = w; log = [] })).1.log
            ∷ u
            ∷ past)

  -- `u`, of a resource that was in `v`, is what its user asked for.
  abbrev pub Settles : View → View → Type 0
  Settles v u = IsSettled u × (u.deleting ≡ v.deleting)

  -- Any view that a reconciliation leaves of one that is not settled is nearer.
  nearer :
      Server env
      → (c : Controller) (u v : View) (past : List View) → Successes c (u ∷ v ∷ past)
      → 0 < rank v
      → (rank u < rank v) × (u.deleting ≡ v.deleting)
  nearer server c u v past (Successes.succeed t before r req w res chain e succeeds) unsettled =
      let (mark, closer) = reconcile_of-Nears server c r req w t e unsettled res succeeds in
      (closer, mark)

  -- Without the newest of them.
  past_of :
      {c : Controller} {u v : View} {past : List View}
      → Successes c (u ∷ v ∷ past)
      → Successes c (v ∷ past)
  past_of (Successes.succeed _ _ _ _ _ _ chain _ _) = chain

  -- Given finalizers that `controllerutil` adds and removes, and an API server that stores what
  -- it accepts: if two reconciliations of a resource succeed in a row, the second of the
  -- resource as the first left it, then before the first, between the two or behind the second
  -- the resource is what its user asked for: with a deletion mark it has neither status nor
  -- finalizer, and without one it has both. The mark is then as it was at the start. The start
  -- may be any state; a resource that has settled may leave that state, for instance where its
  -- MinIO object is gone.
  pub Successes-Settles :
      Server env
      → (c : Controller) (v0 v1 v2 : View) → Successes c (v2 ∷ v1 ∷ v0 ∷ [])
      → Settles v0 v0 ⊎ (Settles v0 v1 ⊎ Settles v0 v2)
  Successes-Settles server c v0 v1 v2 chain = go (rank v0) refl
    where
      second :
          (m : ℕ)
          → rank v1 ≡ m
          → (rank v1 < rank v0) × (v1.deleting ≡ v0.deleting)
          → Settles v0 v1 ⊎ Settles v0 v2
      second zero e (closer, mark) = inl (rank-IsSettled v1 e, mark)
      second (suc m) e (closer, mark) =
          let (closer2, mark2) = nearer server c v2 v1 (v0 ∷ []) chain (ground (arith, e)) in
          let most = rank_bound v0 in
          inr (rank-IsSettled v2 (ground (arith, closer, closer2, most)), mark2 ∙ mark)

      go : (n : ℕ) → rank v0 ≡ n → Settles v0 v0 ⊎ (Settles v0 v1 ⊎ Settles v0 v2)
      go zero e = inl (rank-IsSettled v0 e, refl)
      go (suc n) e =
          inr (second (rank v1) refl (nearer server c v1 v0 [] (past_of chain) (ground (arith, e))))
