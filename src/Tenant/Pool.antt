-- ===== src/Tenant/Pool.antt =====
-- The certificates that a client of a tenant trusts.
use mathlib.Core.List.{◌++◌ as append, append_assoc, append-nil}
use text.Mathlib.Text.{starts_with}
use minio_operator_ext.Base.{
  String, ◌≡◌, sym, ap, ◌∙◌, false, Bool-cases, inl, inr, Option, none, some, List, [], ◌∷◌,
  if◌then◌else◌, lookup, ◌==◌, string_eq,
}
use minio_operator_ext.Api.{
  ResourceRef, Secret, ConfigMap, LocalCertificateReference, Tenant, CertPool,
}
use minio_operator_ext.Client.{Result, ok, err, Env, Run}
use minio_operator_ext.Tenant.{
  append_certs, append_operator_certs, append_external_certs, cert_keys, get_ca_bundle,
}

-- The values of these keys, where a map has them, in the order of the keys.
abbrev pub values : List String → List (String × String) → List String
values [] contents = []
values (k ∷ ks) contents =
    let rest = values ks contents in
    elim (lookup k contents) [ none ↦ rest | some pem ↦ pem ∷ rest ]

-- The certificates of the secrets whose name has the prefix.
abbrev pub operator_pems : List Secret → List String
operator_pems [] = []
operator_pems (s ∷ rest) =
    let later = operator_pems rest in
    if starts_with s.meta.name "operator-ca-tls"
    then append (values cert_keys s.contents) later
    else later

-- A pool with certificates behind its own.
abbrev pub extended : CertPool → List String → CertPool
extended pool pems = record pool { pems = append pool.pems pems }

extended-nil : (pool : CertPool) → pool ≡ extended pool []
extended-nil pool = λ i. record pool { pems = sym (append-nil pool.pems) i }

extended-extended :
    (pool : CertPool) (l m : List String)
    → extended (extended pool l) m ≡ extended pool (append l m)
extended-extended pool l m = λ i. record pool { pems = append_assoc pool.pems l m i }

append_certs-values :
    (ks : List String) (contents : List (String × String)) (pool : CertPool)
    → append_certs ks contents pool ≡ extended pool (values ks contents)
unfolding append_certs
append_certs-values [] contents pool = extended-nil pool
append_certs-values (k ∷ ks) contents pool =
    go (lookup k contents) (append_certs-values ks contents)
  where
    go :
        (o : Option String)
        → ((p : CertPool) → append_certs ks contents p ≡ extended p (values ks contents))
        → append_certs ks contents (elim o [ none ↦ pool | some pem ↦ extended pool (pem ∷ []) ])
          ≡ extended pool
              (elim o [ none ↦ values ks contents | some pem ↦ pem ∷ values ks contents ])
    go none ih = ih pool
    go (some pem) ih =
        ih (extended pool (pem ∷ [])) ∙ extended-extended pool (pem ∷ []) (values ks contents)

-- The loop over the secrets appends to the pool, in their order, the certificates `public.crt`,
-- `tls.crt` and `ca.crt` of each secret whose name begins with `operator-ca-tls`, where it has
-- them, and nothing else.
pub append_operator_certs-operator_pems :
    (secrets : List Secret) (pool : CertPool)
    → append_operator_certs secrets pool ≡ extended pool (operator_pems secrets)
unfolding append_operator_certs
append_operator_certs-operator_pems [] pool = extended-nil pool
append_operator_certs-operator_pems (s ∷ rest) pool =
    elim (Bool-cases (starts_with s.meta.name "operator-ca-tls")) [
      | inl e ↦ rw e (
          append_operator_certs-operator_pems rest (append_certs cert_keys s.contents pool)
          ∙ ap (λ p. extended p (operator_pems rest))
              (append_certs-values cert_keys s.contents pool)
          ∙ extended-extended pool (values cert_keys s.contents) (operator_pems rest))
      | inr e ↦ rw e (append_operator_certs-operator_pems rest pool)
    ]

-- An answer that extends a pool.
abbrev pub Extends : CertPool → Result CertPool → Type 0
Extends pool r = (pems : List String) × (r ≡ ok (extended pool pems))

pod_extends :
    (pool : CertPool) (x : Result ConfigMap)
    → (l : List String) × (elim x [ ok cm ↦ append_certs cert_keys cm.contents pool | err _ ↦ pool ]
        ≡ extended pool l)
pod_extends pool (ok cm) =
    (values cert_keys cm.contents, append_certs-values cert_keys cm.contents pool)
pod_extends pool (err e) = ([], extended-nil pool)

operator_extends :
    (pool : CertPool) (x : Result (List Secret))
    → (l : List String) × (elim x [ ok sl ↦ append_operator_certs sl pool | err _ ↦ pool ]
        ≡ extended pool l)
operator_extends pool (ok sl) = (operator_pems sl, append_operator_certs-operator_pems sl pool)
operator_extends pool (err e) = ([], extended-nil pool)

Extends-trans :
    (pool next : CertPool) (l : List String) (r : Result CertPool)
    → next ≡ extended pool l
    → Extends next r
    → Extends pool r
Extends-trans pool next l r e (pems, same) =
    (append l pems, same ∙ (λ i. ok (extended (e i) pems)) ∙ ap ok (extended-extended pool l pems))

module _ {W : Type 0} (env : Env W) where
  append_external_certs-Extends :
      (namespace : String) (l : List LocalCertificateReference) (pool : CertPool) (s : Run W)
      → Extends pool (append_external_certs env namespace l pool s).0
  unfolding append_external_certs
  append_external_certs-Extends namespace [] pool s = ([], ap ok (extended-nil pool))
  append_external_certs-Extends namespace (eca ∷ rest) pool s =
      elim (Bool-cases (eca.kind == "kubernetes.io/tls")) [
        | inl e ↦
            let got = env.get_secret (record { namespace = namespace; name = eca.name }) s.world in
            rw e
              (go got.0 (record s { world = got.1 }) (append_external_certs-Extends namespace rest))
        | inr e ↦ rw e (append_external_certs-Extends namespace rest pool s)
      ]
    where
      go :
          (x : Result Secret) (s' : Run W)
          → ((p : CertPool) (s : Run W)
              → Extends p (append_external_certs env namespace rest p s).0)
          → Extends pool
              (append_external_certs env namespace rest
                (elim x [ ok s ↦ append_certs cert_keys s.contents pool | err _ ↦ pool ])
                s').0
      go (ok x) s' ih =
          Extends-trans pool (append_certs cert_keys x.contents pool) (values cert_keys x.contents)
            _ (append_certs-values cert_keys x.contents pool)
            (ih (append_certs cert_keys x.contents pool) s')
      go (err e) s' ih = ih pool s'

  -- The pool that the search for certificates starts with.
  abbrev pub system_pool : W → CertPool
  system_pool w = elim (env.system_cert_pool w).0 [
    | ok p ↦ p
    | err _ ↦ record { from_system = false; pems = [] }
  ]

  -- The search for certificates always answers with a pool, whatever errors the reads of the
  -- config map and of the secrets have; it is the pool of the system, or the empty one where
  -- that cannot be read, with certificates behind it.
  pub get_ca_bundle-Extends :
      (rr : ResourceRef) (operator_namespace : String) (t : Tenant) (s : Run W)
      → Extends (system_pool s.world) (get_ca_bundle env rr operator_namespace t s).0
  unfolding get_ca_bundle
  get_ca_bundle-Extends rr operator_namespace t s =
      let w1 = (env.system_cert_pool s.world).1 in
      let pod =
        env.get_config_map (record { namespace = rr.namespace; name = "kube-root-ca.crt" }) w1 in
      let listed = env.list_secrets operator_namespace pod.1 in
      let pool = system_pool s.world in
      let pool2 : CertPool = elim pod.0 [
        | ok cm ↦ append_certs cert_keys cm.contents pool
        | err _ ↦ pool
      ] in
      let pool3 : CertPool = elim listed.0 [
        | ok sl ↦ append_operator_certs sl pool2
        | err _ ↦ pool2
      ] in
      let (l2, e2) = pod_extends pool pod.0 in
      let (l3, e3) = operator_extends pool2 listed.0 in
      Extends-trans pool pool2 l2 _ e2 (
        Extends-trans pool2 pool3 l3 _ e3 (
          append_external_certs-Extends operator_namespace t.external_ca_cert_secret pool3
            (record s { world = listed.1 })))
