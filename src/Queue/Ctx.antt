-- ===== src/Queue/Ctx.antt =====
-- dog-queue/src/types/ctx.rs: the tenant on whose behalf a call is made, with its tracing data.
use dogrs.Base.{String, Bool, Option, none, some, ◌==◌, if◌then◌else◌, string_eq}
use dogrs.Dict
use dogrs.Dict.{Dict}

pub record QueueCtx : Type 0 where
  pub tenant_id : String
  pub trace_id : Option String
  pub request_id : Option String
  pub tags : Dict String String

-- `none` is the panic of the assertion that the tenant is not empty.
unfoldable pub new : String → Option QueueCtx
new tenant_id =
    if tenant_id == ""
    then none
    else some
        (record { tenant_id = tenant_id; trace_id = none; request_id = none; tags = Dict.empty })

unfoldable pub with_trace_id : QueueCtx → String → QueueCtx
with_trace_id ctx trace_id = record ctx { trace_id = some trace_id }

unfoldable pub with_request_id : QueueCtx → String → QueueCtx
with_request_id ctx request_id = record ctx { request_id = some request_id }

unfoldable pub with_tag : QueueCtx → String → String → QueueCtx
with_tag ctx key value = record ctx { tags = Dict.put ctx.tags key value }

unfoldable pub get_tag : QueueCtx → String → Option String
get_tag ctx key = Dict.get ctx.tags key

unfoldable pub has_tag : QueueCtx → String → Bool
has_tag ctx key = Dict.contains_key ctx.tags key
