-- ===== src/AuthLocal/Examples.antt =====
-- The theorems on passwords, at small values of JSON.
use Prim.Native.Char.{code}
use dogrs.Base.{
  none, some, ℕ, ap, ◌≡◌, ◌≢◌, refl, String, true, false, [], ◌∷◌, arith, keep, str_beq, string_eq,
}
use dogrs.Base.Results.{err, ok}
use dogrs.Auth.Bearer.{trim, trim_start, trim_end, is_whitespace, is_empty}
use dogrs.AuthLocal.HashPassword.{get_parts, get_by_path, hash_input}
use dogrs.AuthLocal.HashPassword.Laws.{SameBut, hash_input-get_by_path}
use dogrs.AuthLocal.Protect.{ProtectHook, protect}
use dogrs.AuthLocal.Protect.Laws.{IsProtected, protect-IsProtected, protect-page_kept}
use dogrs.AuthLocal.Values.{Value, Values, Fields, get, get_field, path_parts, split_dots}
use dogrs.Auth.Core.{AuthenticationBase, AuthenticationRequest, AuthenticationParams}
use dogrs.AuthLocal.Protect.{json_kit}
use dogrs.AuthLocal.Strategy.{LocalStrategy, default_options, text_of}
use dogrs.Core.App.{Flow, new_builder}
use dogrs.Core.Events.{new_hub}
use dogrs.Core.Hooks.{HookResult, new_context}
use dogrs.Core.Kit.{Kit}
use dogrs.Core.Service.{ServiceMethodKind}
use dogrs.Dict

abbrev first : String → ℕ
first String.[] = 0
first (String.◌∷◌ x s) = code x

different : ◌≢◌ {A = String} "password" "data"
different e = let letters : b'p' ≡ b'd' = ap first e in ground (arith, letters)

-- A user with a password, and a list of notes of the same name as the items of a page.
abbrev user : Fields
user =
    Fields.field "password" (Value.text "$2b$..")
      (Fields.field "data" (Value.array (Values.cons (Value.text "note") Values.nil)) Fields.end)

abbrev hook : ProtectHook
hook = record { paths = []; deep_fields = "password" ∷ [] }

protect-IsProtected_example :
    IsProtected
      ("password" ∷ [])
      (protect hook (HookResult.many (Value.object user ∷ Value.null ∷ [])))
protect-IsProtected_example =
    protect-IsProtected hook (HookResult.many (Value.object user ∷ Value.null ∷ [])) refl

protect-page_kept_example :
    (w : Value) × (protect hook (HookResult.one (Value.object user)) ≡ HookResult.one w)
    × (get w "password" ≡ get_field user "password")
unfolding get_field str_beq
protect-page_kept_example =
    protect-page_kept hook user (Values.cons (Value.text "note") Values.nil) "password" refl
      different

abbrev form : Value
form = Value.object (
    Fields.field "email" (Value.text "a@b")
      (Fields.field "password" (Value.text "secret") Fields.end))

hash_input-get_by_path_example :
    ((is_empty (trim "secret") ≡ false)
      → (w : Value) × (hash_input (λ pw. ok "$2b$..") "password" form ≡ ok w)
        × (get_by_path w "password" ≡ some (Value.text "$2b$.."))
        × SameBut ("password" ∷ []) form w)
    × ((is_empty (trim "secret") ≡ true) → hash_input (λ pw. ok "$2b$..") "password" form ≡ ok form)
unfolding path_parts split_dots get_by_path get_parts get get_field trim_start trim_end
    is_whitespace keep str_beq
hash_input-get_by_path_example =
    hash_input-get_by_path (λ pw. ok "$2b$..") "password" "password" "secret" "$2b$.." [] form refl
      refl refl

abbrev kit : Kit
kit = record {
  World = ℕ;
  Item = String;
  Params = Unit {0};
  Error = String;
  Listener = ℕ;
  Payload = ℕ;
  anyhow = λ t. t;
}

abbrev base : AuthenticationBase (json_kit kit) String
base = record {
  options = record {
    entity = none;
    service = none;
    entity_id_claim = none;
    jwt = record {
      issuer = "dogrs";
      audience = [];
      access_token_expires_in = 900;
      refresh_token_expires_in = 86400;
      custom_claims = Dict.empty;
      secret = none;
    };
  };
  strategies = Dict.empty;
  sign = λ jwt claims t. err "no key";
  json = record {
    field = get;
    as_str = λ v. text_of (some v);
    as_object = λ v. none;
    object = λ d. Value.null;
    text = Value.text;
    texts = λ l. Value.null;
    number = λ n. Value.null;
  };
  anyhow = record {
    wrap = λ d. d.message;
    downcast = err;
    chain_find = λ e. none;
    to_string = λ e. e;
  };
}

-- Every name is that of the user.
abbrev local : LocalStrategy kit
local = record {
  name = "local";
  options = default_options;
  entity_resolver = some (λ username f. (ok (some (Value.object user)), f));
  entity_query_builder = none;
  app = (new_builder {k = json_kit kit}).app;
  hash = λ password cost. ok "$2b$..";
  verify = λ password hash_val. ok true;
}

abbrev login : AuthenticationRequest Value
login = record {
  strategy = some "local";
  fields =
      Dict.put (Dict.put Dict.empty "email" (Value.text "a@b")) "password" (Value.text "secret");
}

abbrev params : AuthenticationParams Value
params = record {
  payload = none;
  jwt_options = none;
  auth_strategies = none;
  secret = none;
  headers = Dict.empty;
}

abbrev flow : Flow (json_kit kit)
flow = record {
  shared = record { world = 0; hub = new_hub };
  ctx = new_context (record { tenant_id = "acme" }) ServiceMethodKind.create tt Dict.empty;
}
