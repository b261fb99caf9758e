-- ===== src/Blob/Coordinator/Outcomes.antt =====
-- What the coordinator refuses, and what it fails to refuse.
use Prim.Native.String.{◌++◌ as text_append}
use dogrs.Base.{
  ℕ, ◌≤◌, ◌≡◌, ◌≢◌, refl, ap, ◌∙◌, String, false, Option, none, some, List, arith, string_eq,
  str_beq_ne, In,
}
use dogrs.Base.Results.{ok, err}
use dogrs.Blob.Coordinator.{
  DefaultUploadCoordinator, is_active, size_check, require_active, part_receipt, accept_part,
  set_total_parts, assemble, complete, Readings, inactive,
}
use dogrs.Blob.Coordinator.Assembly.{accepted}
use dogrs.Blob.Sessions
use dogrs.Blob.Sessions.{add_part}
use dogrs.Blob.Staging.{UploadSetup, part_numbers, missing_part}
use dogrs.Blob.Staging.Joined.{concat-broken}
use dogrs.Blob.Store.{ByteStream, bytes_of, IsReliable}
use dogrs.Blob.Types.{BlobError, BlobResult, BlobCtx, UploadStatus, UploadSession, BlobReceipt}
use dogrs.Dict
use dogrs.Dict.{get-put_self}

module _ {Json : Type 0} (c : UploadSetup) where
  -- A session that was completed, aborted or marked as failed is closed: a part of an allowed number, a new total
  -- and a completion are refused with the same error, and nothing changes.
  pub closed-refused :
      (ctx : BlobCtx) (upload_id : String) (p total now : ℕ) (later : Readings) (body : ByteStream)
      (s : DefaultUploadCoordinator c Json) (session : UploadSession Json)
      → Dict.get s.sessions upload_id ≡ some session
      → is_active session.status ≡ false
      → 1 ≤ p
      → p ≤ c.rules.max_parts
      → (accept_part c ctx upload_id p body now s ≡ (err inactive, s))
        × (set_total_parts c ctx upload_id total now s ≡ (err inactive, s))
        × (complete c ctx upload_id later s ≡ (err inactive, s))
  unfolding accept_part set_total_parts complete require_active Sessions.get
  closed-refused ctx upload_id p total now later body s session found closed low high = (
    ground (arith, found, closed, low, high),
    ground (arith, found, closed),
    ground (arith, found, closed),
  )

module _ {Json : Type 0} (c : UploadSetup) (h : IsReliable c.blobs) where
  -- What follows the tests of the session.
  abbrev checked :
      BlobCtx
      → String
      → Readings
      → DefaultUploadCoordinator c Json
      → UploadSession Json
      → ℕ
      → Option ℕ
      → Option BlobError
      → BlobResult (BlobReceipt Json) × DefaultUploadCoordinator c Json
  checked ctx upload_id now s session n (some p) sized =
      (err (BlobError.invalid (text_append "Missing part " (c.show p))), s)
  checked ctx upload_id now s session n none (some e) = (err e, s)
  checked ctx upload_id now s session n none none = assemble c ctx upload_id session n now s

  checks :
      (ctx : BlobCtx) (upload_id : String) (n : ℕ) (now : Readings)
      (s : DefaultUploadCoordinator c Json) (session : UploadSession Json)
      → Dict.get s.sessions upload_id ≡ some session
      → session.status ≡ UploadStatus.active
      → session.total_parts ≡ some n
      → complete c ctx upload_id now s
        ≡ checked ctx upload_id now s session n
            (missing_part session.progress.parts (part_numbers n))
            (size_check c session n)
  unfolding complete require_active Sessions.get
  checks ctx upload_id n now s session found active total = ground (arith, found, active, total)

  assemble-broken :
      (ctx : BlobCtx) (upload_id : String) (p n : ℕ) (now : Readings)
      (s : DefaultUploadCoordinator c Json) (session : UploadSession Json)
      → In p (part_numbers n)
      → h.contents s.store (c.keys.staging_key ctx.tenant_id upload_id p) ≡ none
      → (e : BlobError) × ((assemble c ctx upload_id session n now s).0 ≡ err e)
  unfolding assemble
  assemble-broken ctx upload_id p n now s session i lost =
      let (e, broken) =
        concat-broken c h (c.keys.staging_key ctx.tenant_id upload_id) s.store p (part_numbers n) i
          lost in
      let (d, refused) =
        h.put_refused (c.keys.object_key now.keyed ctx.tenant_id session.blob_id Dict.empty)
          (some session.content_type) _ s.store e broken in
      (d, ground (arith, refused))

  checked-broken :
      (ctx : BlobCtx) (upload_id : String) (now : Readings) (s : DefaultUploadCoordinator c Json)
      (session : UploadSession Json) (n : ℕ) (gap : Option ℕ) (sized : Option BlobError)
      → ((e : BlobError) × ((assemble c ctx upload_id session n now s).0 ≡ err e))
      → (e : BlobError) × ((checked ctx upload_id now s session n gap sized).0 ≡ err e)
  checked-broken ctx upload_id now s session n (some p) sized broken = (_, refl)
  checked-broken ctx upload_id now s session n none (some e) broken = (e, refl)
  checked-broken ctx upload_id now s session n none none broken = broken

  complete-broken :
      (ctx : BlobCtx) (upload_id : String) (p n : ℕ) (now : Readings)
      (s : DefaultUploadCoordinator c Json) (session : UploadSession Json)
      → Dict.get s.sessions upload_id ≡ some session
      → session.status ≡ UploadStatus.active
      → session.total_parts ≡ some n
      → In p (part_numbers n)
      → h.contents s.store (c.keys.staging_key ctx.tenant_id upload_id p) ≡ none
      → (e : BlobError) × ((complete c ctx upload_id now s).0 ≡ err e)
  complete-broken ctx upload_id p n now s session found active total i lost =
      let (e, broken) =
        checked-broken ctx upload_id now s session n
          (missing_part session.progress.parts (part_numbers n)) (size_check c session n)
          (assemble-broken ctx upload_id p n now s session i lost) in
      (e, ap (λ r. r.0) (checks ctx upload_id n now s session found active total) ∙ broken)

  -- Nothing compares the tenant of a call with that of the session. Over a store that works, let a
  -- session be active with a given total, and hand in a part of an allowed number up to that total, with a
  -- body without error, in the name of any tenant: it is accepted. If the key under which it is
  -- staged is not that of the owner, and the owner has staged no part of this number, then the
  -- completion by the owner fails afterwards.
  pub foreign_part-breaks :
      (ctx owner : BlobCtx) (upload_id : String) (p n now : ℕ) (later : Readings)
      (body : ByteStream) (bytes : List ℕ) (s : DefaultUploadCoordinator c Json)
      (session : UploadSession Json)
      → Dict.get s.sessions upload_id ≡ some session
      → session.status ≡ UploadStatus.active
      → session.total_parts ≡ some n
      → 1 ≤ p
      → p ≤ c.rules.max_parts
      → In p (part_numbers n)
      → bytes_of body ≡ ok bytes
      → c.keys.staging_key ctx.tenant_id upload_id p
        ≢ c.keys.staging_key owner.tenant_id upload_id p
      → h.contents s.store (c.keys.staging_key owner.tenant_id upload_id p) ≡ none
      → ((accept_part c ctx upload_id p body now s).0 ≡ ok (part_receipt p now (h.stored bytes)))
        × ((e : BlobError) × ((complete c owner upload_id later
                (accept_part c ctx upload_id p body now s).1).0
              ≡ err e))
  foreign_part-breaks ctx owner upload_id p n now later body bytes s session found active total low
        high i clean apart lost =
      rw (accepted c h ctx upload_id p body bytes now s session found active low high clean) (
        refl,
        complete-broken owner upload_id p n later _
            (add_part (part_receipt p now (h.stored bytes)) session)
            (get-put_self s.sessions upload_id _) active total i
            (h.put_contents (c.keys.staging_key ctx.tenant_id upload_id p)
                (c.keys.staging_key owner.tenant_id upload_id p) (some "application/octet-stream")
                body s.store bytes clean
              ∙ rw (str_beq_ne _ _ apart) lost),
      )
