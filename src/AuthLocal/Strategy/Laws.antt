-- ===== src/AuthLocal/Strategy/Laws.antt =====
-- A login succeeds only with the password of the entity that it finds.
use dogrs.Base.{◌≡◌, ◌≢◌, String, true, false, none, some, string_eq}
use dogrs.Base.Results.{Result, ok}
use dogrs.Auth.Core.{AuthenticationBase, AuthenticationRequest, or_else}
use dogrs.AuthLocal.HashPassword.{get_by_path}
use dogrs.AuthLocal.Protect.{json_kit}
use dogrs.AuthLocal.Strategy.{LocalStrategy, text_of, has_dot, get_required_str, resolve}
use dogrs.AuthLocal.Values.{Value, Fields, get}
use dogrs.Core.App.{Flow}
use dogrs.Core.Kit.{Kit}

module _ {k : Kit} {V : Type 0} (b : AuthenticationBase (json_kit k) V) (l : LocalStrategy k) where
  -- The login of an entity that is found by the name, whose stored hash the password matches; `shown` is the entity as the result
  -- has it.
  pub record IsLogin (req : AuthenticationRequest Value) (f : Flow (json_kit k)) (result : Value)
      (f' : Flow (json_kit k)) : Type 0 where
    pub username : String
    pub password : String
    pub entity : Value
    pub hash_val : String
    pub username_given : get_required_str b l req l.options.username_field ≡ some username
    pub password_given : get_required_str b l req l.options.password_field ≡ some password
    pub found : resolve b l username f ≡ (ok (some entity), f')
    pub stored : text_of (get_by_path entity l.options.entity_password_field) ≡ some hash_val
    pub verified : l.verify password hash_val ≡ ok true
    pub shown : Value
    pub answered : get result (or_else b.options.entity "user") ≡ some shown
    pub named :
        "authentication" ≢ or_else b.options.entity "user"
        → get result "authentication"
          ≡ some (Value.object (Fields.field "strategy" (Value.text l.name) Fields.end))
    pub stripped :
        has_dot l.options.entity_password_field ≡ false
        → get shown l.options.entity_password_field ≡ none
    pub kept :
        (name : String) → name ≢ l.options.entity_password_field → get shown name ≡ get entity name
    pub whole : has_dot l.options.entity_password_field ≡ true → shown ≡ entity

  abbrev Outcome : Type 0
  Outcome = Result k.Error Value × Flow (json_kit k)
