-- ===== src/Axum/Params.antt =====
-- dog-axum/src/params.rs, and the tenant of a request of dog-axum/src/rest.rs. The headers of a request are a list of names, in
-- lower case, with their values; a value that is no text is `none`.
use dogrs.Base.{String, false, Option, none, some, List, [], ◌∷◌, if◌then◌else◌, ◌==◌, string_eq}
use dogrs.Auth.Hooks.{AuthParams}
use dogrs.Core.Service.{TenantContext}
use dogrs.Dict
use dogrs.Dict.{Dict}

abbrev pub HeaderMap : Type 0
HeaderMap = List (String × Option String)

-- `headers.get(name).and_then(|v| v.to_str().ok())`: of the first value of the name.
unfoldable pub header_text : HeaderMap → String → Option String
header_text [] name = none
header_text ((k, v) ∷ headers) name =
    let rest = header_text headers name in if k == name then v else rest

unfoldable pub tenant_from_headers : HeaderMap → TenantContext
unfolding header_text
tenant_from_headers headers = elim (header_text headers "x-tenant-id") [
  | none ↦ record { tenant_id = "default" }
  | some id ↦ record { tenant_id = id }
]

pub record Uri : Type 0 where
  pub path : String
  pub query : Option String

pub record RestParams : Type 0 where
  pub provider : String
  pub headers : Dict String String
  pub query : Dict String String
  pub method : String
  pub path : String
  pub raw_query : Option String

-- The loop over the headers: a later value of a name replaces an earlier one.
unfoldable pub insert_headers : HeaderMap → Dict String String → Dict String String
insert_headers [] d = d
insert_headers ((k, none) ∷ headers) d = insert_headers headers d
insert_headers ((k, some v) ∷ headers) d = insert_headers headers (Dict.put d k v)

unfoldable pub from_parts : String → HeaderMap → Dict String String → String → Uri → RestParams
unfolding insert_headers
from_parts provider headers query method uri = record {
  provider = provider;
  headers = insert_headers headers Dict.empty;
  query = query;
  method = method;
  path = uri.path;
  raw_query = uri.query;
}

-- `FromRestParams for AuthParams<RestParams>`.
abbrev pub auth_from_rest_params : {Json : Type 0} → RestParams → AuthParams RestParams Json
auth_from_rest_params params = record {
  inner = params;
  provider = some params.provider;
  headers = params.headers;
  authentication = none;
  authenticated = false;
  auth_result = none;
}
