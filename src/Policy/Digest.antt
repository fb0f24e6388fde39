-- ===== src/Policy/Digest.antt =====
-- The digests by which policies are compared do not see the order of the lists.
use mathlib.Core.List.{map, Perm}
use mathlib.Core.List.Perm
use minio_operator_ext.Base.{◌≡◌, [], ◌∷◌}
use minio_operator_ext.Api.{MinioPolicyStatement, MinioPolicySpec}
use minio_operator_ext.Client.{Env}
use minio_operator_ext.Policy.Hash.{
  join, statement_text, document_text, statement_hash, policy_spec_hash,
}
use minio_operator_ext.Policy.Order.{sort-Perm}

module _ {W : Type 0} (env : Env W) where
  -- Statements with the same effect, and with the same actions and the same resources in any order,
  -- have the same digest.
  pub statement_hash-Perm :
      (st st' : MinioPolicyStatement)
      → st.effect ≡ st'.effect
      → Perm st.action st'.action
      → Perm st.resource st'.resource
      → statement_hash env st ≡ statement_hash env st'
  unfolding statement_hash statement_text
  statement_hash-Perm st st' e a b =
      let actions = sort-Perm st.action st'.action a in
      let resources = sort-Perm st.resource st'.resource b in
      λ i. env.sha512_256 (join "|" (join "," (actions i) ∷ e i ∷ join "," (resources i) ∷ []))

  -- Policies with the same version and the same statements in any order have the same digest.
  pub policy_spec_hash-Perm :
      (p q : MinioPolicySpec)
      → p.version ≡ q.version
      → Perm p.statement q.statement
      → policy_spec_hash env p ≡ policy_spec_hash env q
  unfolding policy_spec_hash document_text
  policy_spec_hash-Perm p q e h =
      let digests =
        sort-Perm (map (statement_hash env) p.statement) (map (statement_hash env) q.statement)
          (Perm.map (statement_hash env) h) in
      λ i. env.sha512_256 (join "|" (e i ∷ join "," (digests i) ∷ []))
