-- ===== src/Operator/Kinds.antt =====
-- The seven controllers, the types that their `register` names, and `addKnownTypes`.
use minio_operator_ext.Base.{
  ℕ, suc, String, ◌≡◌, refl, List, [], ◌∷◌, true, contains, if◌then◌else◌, ◌==◌, string_eq,
}
use minio_operator_ext.Operator.Controllers.{Controller}
use minio_operator_ext.Operator.Register.{kind_name}
use minio_operator_ext.Operator.Startup.{controllers, known_types}

-- How many of the controllers watch the type of that name.
abbrev pub watchers : List Controller → String → ℕ
watchers [] name = 0
watchers (c ∷ cs) name =
    let rest = watchers cs name in if kind_name c == name then suc rest else rest

pub controllers-known_types :
    (c : Controller)
    → (contains known_types (kind_name c) ≡ true) × (watchers controllers (kind_name c) ≡ 1)
unfolding kind_name
controllers-known_types Controller.bucket = (refl, refl)
controllers-known_types Controller.group = (refl, refl)
controllers-known_types Controller.group_binding = (refl, refl)
controllers-known_types Controller.policy = (refl, refl)
controllers-known_types Controller.policy_binding = (refl, refl)
controllers-known_types Controller.user = (refl, refl)
controllers-known_types Controller.access_key = (refl, refl)
