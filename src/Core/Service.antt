-- ===== src/Core/Service.antt =====
-- dog-core/src/service.rs and dog-core/src/tenant.rs: the methods of a service.
use dogrs.Base.{◌≡◌, ◌↔◌, String, Bool, true, false, List, [], ◌∷◌, Eq, arith, str_beq, str_beq_iff}

pub record TenantContext : Type 0 where
  pub tenant_id : String

pub data ServiceMethodKind : Type 0 where
  find get create update patch remove : ServiceMethodKind
  custom : String → ServiceMethodKind

abbrev method_beq : ServiceMethodKind → ServiceMethodKind → Bool
method_beq ServiceMethodKind.find ServiceMethodKind.find = true
method_beq ServiceMethodKind.get ServiceMethodKind.get = true
method_beq ServiceMethodKind.create ServiceMethodKind.create = true
method_beq ServiceMethodKind.update ServiceMethodKind.update = true
method_beq ServiceMethodKind.patch ServiceMethodKind.patch = true
method_beq ServiceMethodKind.remove ServiceMethodKind.remove = true
method_beq (ServiceMethodKind.custom a) (ServiceMethodKind.custom b) = str_beq a b
method_beq _ _ = false

pub method_beq_iff : (a b : ServiceMethodKind) → (method_beq a b ≡ true) ↔ (a ≡ b)
method_beq_iff (ServiceMethodKind.custom a) (ServiceMethodKind.custom b) =
    ground (arith, str_beq_iff a b)
method_beq_iff a b = ground arith

instance abbrev pub method_eq : Eq ServiceMethodKind
method_eq = record { beq = method_beq; beq_iff = method_beq_iff }

pub record ServiceCapabilities : Type 0 where
  pub allowed_methods : List ServiceMethodKind

unfoldable pub standard_crud : ServiceCapabilities
standard_crud = record {
  allowed_methods =
      ServiceMethodKind.find ∷ ServiceMethodKind.get ∷ ServiceMethodKind.create
      ∷ ServiceMethodKind.update ∷ ServiceMethodKind.patch ∷ ServiceMethodKind.remove ∷ [];
}

unfoldable pub minimal : ServiceCapabilities
minimal = record { allowed_methods = ServiceMethodKind.find ∷ ServiceMethodKind.create ∷ [] }

unfoldable pub from_methods : List ServiceMethodKind → ServiceCapabilities
from_methods methods = record { allowed_methods = methods }
