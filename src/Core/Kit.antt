-- ===== src/Core/Kit.antt =====
-- The types over which dog-core is generic. What an application supplies as trait objects acts on a
-- state of its own, `World`; an error of the crate anyhow is a value of `Error`, and `anyhow!` makes
-- one of a text. A listener of events is a value of `Listener`, and `Payload` is the type-erased
-- data of a custom event.
use dogrs.Base.{String}

pub record Kit : Type 1 where
  pub World : Type 0
  pub Item : Type 0
  pub Params : Type 0
  pub Error : Type 0
  pub Listener : Type 0
  pub Payload : Type 0
  pub anyhow : String → Error
