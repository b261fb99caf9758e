-- ===== src/Blob/Adapter.antt =====
-- dog-blob/src/adapter.rs: `BlobAdapter`, single blobs, and its calls of the coordinator of uploads. Signed addresses are
-- left out: `can_sign_urls` is always false.
pub mod Laws
use Prim.Native.String.{◌++◌ as text_append}
use dogrs.Base.{
  ℕ, ◌+◌, ◌-◌, ◌/◌, ◌%◌, ◌^◌, String, Bool, false, Option, none, some, List, ltb, if◌then◌else◌,
}
use dogrs.Base.Results.{Result, ok, err}
use dogrs.Blob.Coordinator
use dogrs.Blob.Coordinator.{DefaultUploadCoordinator, Readings}
use dogrs.Blob.Staging.{UploadSetup}
use dogrs.Blob.Store.{BlobStore, ByteStream, ByteRange, ResolvedRange, GetResult, PutResult}
use dogrs.Blob.Types.{
  BlobError, BlobResult, BlobCtx, BlobReceipt, Chunking, UploadInfo, UploadIntent, UploadSession,
  PartReceipt,
}
use dogrs.Dict
use dogrs.Dict.{Dict}

pub record BlobPut (Json : Type 0) : Type 0 where
  pub content_type : Option String
  pub filename : Option String
  pub size_hint : Option ℕ
  pub attributes : Json
  pub key_hints : Dict String String
  pub idempotency_key : Option String

-- `OpenedContent` has the stream only, and what it is of the blob.
pub record OpenedBlob (Json : Type 0) : Type 0 where
  pub receipt : BlobReceipt Json
  pub stream : ByteStream
  pub resolved_range : Option ResolvedRange

-- What an adapter is built with. A coordinator of uploads, where there is one, is over the same store.
-- `null` is the empty value of attributes.
pub record BlobState (Json : Type 0) : Type 1 where
  pub uploads : UploadSetup
  pub has_uploads : Bool
  pub max_blob_bytes : ℕ
  pub null : Json

abbrev pub or_else {ℓ} : {A : Type ℓ} → Option A → A → A
or_else none a = a
or_else (some b) a = b

abbrev above : Option ℕ → ℕ → Bool
above none limit = false
above (some size) limit = ltb limit size

-- `s.div_ceil(part_size) as u32`.
unfoldable pub planned : ℕ → ℕ → ℕ
planned size part_size = (size + part_size - 1) / part_size % 2 ^ 32

module _ {Json : Type 0} (a : BlobState Json) where
  too_large : ℕ → BlobError
  too_large size = BlobError.invalid (
      text_append "Blob size " (
        text_append (a.uploads.show size)
          (text_append " exceeds maximum " (a.uploads.show a.max_blob_bytes))))

  -- With the blob's metadata if it has a name.
  unfoldable pub put_body :
      String
      → BlobPut Json
      → ByteStream
      → a.uploads.blobs.State
      → BlobResult PutResult × a.uploads.blobs.State
  put_body key p body st = elim p.filename [
    | none ↦ a.uploads.blobs.put key p.content_type body st
    | some name ↦ a.uploads.blobs.put_with_metadata key p.content_type (some name) body st
  ]

  abbrev pub put_receipt : String → String → BlobPut Json → ℕ → PutResult → BlobReceipt Json
  put_receipt id key p now result = record {
    id = id;
    key = key;
    size_bytes = result.size_bytes;
    content_type = p.content_type;
    filename = p.filename;
    etag = result.etag;
    checksum = result.checksum;
    created_at = now;
    attributes = p.attributes;
    upload = UploadInfo.single "put";
    accepts_ranges = a.uploads.blobs.supports_range;
  }

  -- `id` is fresh; `now` is the time of the key, and `issued` that of the receipt.
  unfoldable pub put :
      BlobCtx
      → BlobPut Json
      → ByteStream
      → String
      → ℕ
      → ℕ
      → a.uploads.blobs.State
      → BlobResult (BlobReceipt Json) × a.uploads.blobs.State
  unfolding too_large
  put ctx p body id now issued st =
      if above p.size_hint a.max_blob_bytes
      then (err (too_large (or_else p.size_hint 0)), st)
      else (let key = a.uploads.keys.object_key now ctx.tenant_id id p.key_hints in
          let (r, st') = put_body key p body st in
          elim r [
            | err e ↦ (err e, st')
            | ok result ↦ (ok (put_receipt id key p issued result), st')
          ])

  abbrev get_receipt : String → String → ℕ → GetResult → BlobReceipt Json
  get_receipt id key now g = record {
    id = id;
    key = key;
    size_bytes = g.size_bytes;
    content_type = g.content_type;
    filename = none;
    etag = g.etag;
    checksum = none;
    created_at = now;
    attributes = a.null;
    upload = UploadInfo.single "put";
    accepts_ranges = a.uploads.blobs.supports_range;
  }

  unfoldable pub open_blob :
      BlobCtx
      → String
      → Option ByteRange
      → ℕ
      → ℕ
      → a.uploads.blobs.State
      → BlobResult (OpenedBlob Json)
  open_blob ctx id range now issued st =
      let key = a.uploads.keys.object_key now ctx.tenant_id id Dict.empty in
      elim (a.uploads.blobs.get key range st) [
        | err e ↦ err e
        | ok g ↦ ok (record {
          receipt = get_receipt id key issued g;
          stream = g.stream;
          resolved_range = g.resolved_range;
        })
      ]

  unfoldable pub delete :
      BlobCtx → String → ℕ → a.uploads.blobs.State → BlobResult (Unit {0}) × a.uploads.blobs.State
  delete ctx id now st =
      a.uploads.blobs.delete (a.uploads.keys.object_key now ctx.tenant_id id Dict.empty) st

  abbrev tenant_prefix : BlobCtx → Option String → String
  tenant_prefix ctx none = ctx.tenant_id
  tenant_prefix ctx (some prefix) = text_append ctx.tenant_id (text_append "/" prefix)

  unfoldable pub list :
      BlobCtx
      → Option String
      → Option ℕ
      → a.uploads.blobs.State
      → BlobResult (List a.uploads.blobs.Info)
  list ctx prefix limit st = a.uploads.blobs.list (some (tenant_prefix ctx prefix)) limit st

  abbrev pub not_configured : BlobError
  not_configured = BlobError.invalid "Upload coordinator not configured"

  abbrev plan : BlobPut Json → Option ℕ
  plan p = elim p.size_hint [
    | none ↦ none
    | some size ↦ some (planned size a.uploads.rules.part_size)
  ]

  unfoldable pub begin_multipart :
      BlobCtx
      → BlobPut Json
      → String
      → String
      → ℕ
      → ℕ
      → DefaultUploadCoordinator a.uploads Json
      → BlobResult (UploadSession Json) × DefaultUploadCoordinator a.uploads Json
  begin_multipart ctx p id upload_id keyed now s =
      if a.has_uploads
      then Coordinator.begin a.uploads ctx
          (record {
            id = id;
            key = a.uploads.keys.object_key keyed ctx.tenant_id id p.key_hints;
            content_type = or_else p.content_type "application/octet-stream";
            filename = some (or_else p.filename "");
            size_hint = none;
            attributes = p.attributes;
            chunking = Chunking.parts a.uploads.rules.part_size (plan p);
            idempotency_key = none;
          })
          upload_id now s
      else (err not_configured, s)

  unfoldable pub upload_part :
      BlobCtx
      → String
      → ℕ
      → ByteStream
      → ℕ
      → DefaultUploadCoordinator a.uploads Json
      → BlobResult PartReceipt × DefaultUploadCoordinator a.uploads Json
  upload_part ctx upload_id part_number body now s =
      if a.has_uploads
      then Coordinator.accept_part a.uploads ctx upload_id part_number body now s
      else (err not_configured, s)

  unfoldable pub complete_multipart :
      BlobCtx
      → String
      → Readings
      → DefaultUploadCoordinator a.uploads Json
      → BlobResult (BlobReceipt Json) × DefaultUploadCoordinator a.uploads Json
  complete_multipart ctx upload_id now s =
      if a.has_uploads
      then Coordinator.complete a.uploads ctx upload_id now s
      else (err not_configured, s)

  unfoldable pub abort_multipart :
      BlobCtx
      → String
      → ℕ
      → DefaultUploadCoordinator a.uploads Json
      → BlobResult (Unit {0}) × DefaultUploadCoordinator a.uploads Json
  abort_multipart ctx upload_id now s =
      if a.has_uploads
      then Coordinator.abort a.uploads ctx upload_id now s
      else (err not_configured, s)

  unfoldable pub get_upload_session :
      BlobCtx → String → DefaultUploadCoordinator a.uploads Json → BlobResult (UploadSession Json)
  get_upload_session ctx upload_id s =
      if a.has_uploads
      then Coordinator.get_session a.uploads ctx upload_id s
      else err not_configured
