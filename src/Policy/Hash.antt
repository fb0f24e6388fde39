-- ===== src/Policy/Hash.antt =====
-- `getHash` of internal/operator/minio_policy_reconciler.go: the digest by which policies are
-- compared. The lists are sorted first, so their order does not count.
use Prim.Native.Char.{code}
use mathlib.Core.List.{map}
use minio_operator_ext.Base.{String, ◌++◌, Bool, true, false, List, [], ◌∷◌, if◌then◌else◌, ltb}
use minio_operator_ext.Api.{MinioPolicyStatement, MinioPolicySpec, MinioAccessKeyPolicy}
use minio_operator_ext.Client.{Env}

-- `a <= b` on strings: by the code points, which is the order of the bytes in UTF-8
unfoldable pub text_leb : String → String → Bool
text_leb String.[] b = true
text_leb (String.◌∷◌ c s) String.[] = false
text_leb (String.◌∷◌ c s) (String.◌∷◌ d t) =
    let rest = text_leb s t in
    if ltb (code c) (code d) then true else if ltb (code d) (code c) then false else rest

unfoldable pub insert : String → List String → List String
insert x [] = x ∷ []
insert x (y ∷ ys) = if text_leb x y then x ∷ y ∷ ys else y ∷ insert x ys

-- `slices.Sort`
unfoldable pub sort : List String → List String
unfolding insert
sort [] = []
sort (x ∷ xs) = insert x (sort xs)

-- `strings.Join`
unfoldable pub join : String → List String → String
join sep [] = ""
join sep (x ∷ []) = x
join sep (x ∷ y ∷ ys) = x ++ sep ++ join sep (y ∷ ys)

-- What is hashed of a statement.
unfoldable pub statement_text : MinioPolicyStatement → String
statement_text st =
    join "|" (join "," (sort st.action) ∷ st.effect ∷ join "," (sort st.resource) ∷ [])

-- What is hashed of a version and the digests of the statements.
unfoldable pub document_text : String → List String → String
document_text version digests = join "|" (version ∷ join "," (sort digests) ∷ [])

module _ {W : Type 0} (env : Env W) where
  -- `getHash` of a `v1.MinioPolicyStatement`
  unfoldable pub statement_hash : MinioPolicyStatement → String
  statement_hash st = env.sha512_256 (statement_text st)

  -- `getHash` of a `*v1.MinioPolicySpec`
  unfoldable pub policy_spec_hash : MinioPolicySpec → String
  policy_spec_hash mps =
      env.sha512_256 (document_text mps.version (map statement_hash mps.statement))

  -- `getHash` of a `*v1.MinioAccessKeyPolicy`
  unfoldable pub access_key_policy_hash : MinioAccessKeyPolicy → String
  access_key_policy_hash makp =
      env.sha512_256 (document_text makp.version (map statement_hash makp.statement))
