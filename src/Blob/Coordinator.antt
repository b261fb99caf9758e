-- ===== src/Blob/Coordinator.antt =====
-- dog-blob/src/coordinator.rs: `DefaultUploadCoordinator`, which stages the parts of an upload as blobs of their own
-- and joins them when the upload is completed.
pub mod Assembly
pub mod Outcomes
use Prim.Native.String.{◌++◌ as text_append}
use dogrs.Base.{
  ℕ, zero, suc, ◌+◌, ◌-◌, String, Bool, true, false, ◌||◌, Option, none, some, List, [], ◌∷◌, ◌++◌,
  map, eqb, ltb, if◌then◌else◌,
}
use dogrs.Base.Results.{Result, ok, err}
use dogrs.Blob.Parts
use dogrs.Dict
use dogrs.Blob.Parts.{PartMap}
use dogrs.Blob.Sessions
use dogrs.Blob.Sessions.{MemoryUploadSessionStore}
use dogrs.Blob.Staging.{
  UploadSetup, part_numbers, missing_part, size_error, concat_part_streams, cleanup_staged_parts,
}
use dogrs.Blob.Store.{BlobStore, BlobKeyStrategy, ByteStream, PutResult}
use dogrs.Blob.Types.{
  BlobError, BlobResult, BlobCtx, Chunking, UploadIntent, UploadStatus, PartReceipt, UploadSession,
  UploadRules, UploadInfo, BlobReceipt, display,
}

-- The state is that of the two stores.
pub record DefaultUploadCoordinator (c : UploadSetup) (Json : Type 0) : Type 0 where
  pub store : c.blobs.State
  pub sessions : MemoryUploadSessionStore Json

abbrev pub is_active : UploadStatus → Bool
is_active UploadStatus.active = true
is_active _ = false

abbrev pub inactive : BlobError
inactive = BlobError.invalid "Upload session is not active"

abbrev planned_parts : Chunking → Option ℕ
planned_parts (Chunking.parts part_size total_parts) = total_parts
planned_parts Chunking.single = none

abbrev pub part_receipt : ℕ → ℕ → PutResult → PartReceipt
part_receipt part_number now result = record {
  part_number = part_number;
  size_bytes = result.size_bytes;
  etag = result.etag;
  checksum = result.checksum;
  uploaded_at = now;
}

abbrev pub total_of : {Json : Type 0} → UploadSession Json → Option ℕ
total_of session = elim session.total_parts [
  | none ↦ Parts.max_key session.progress.parts
  | some n ↦ some n
]

abbrev pub uploaded : {Json : Type 0} → UploadSession Json → ℕ
uploaded session = elim (Parts.max_key session.progress.parts) [ none ↦ 0 | some n ↦ n ]

-- The times that a call reads off the clock: for the key of a blob, for the session, and for the receipt.
pub record Readings : Type 0 where
  pub keyed : ℕ
  pub marked : ℕ
  pub issued : ℕ

module _ {Json : Type 0} (c : UploadSetup) where
  -- `upload_id` is fresh.
  unfoldable pub begin :
      BlobCtx
      → UploadIntent Json
      → String
      → ℕ
      → DefaultUploadCoordinator c Json
      → BlobResult (UploadSession Json) × DefaultUploadCoordinator c Json
  begin ctx intent upload_id now s =
      let session : UploadSession Json = record {
        upload_id = upload_id;
        blob_id = intent.id;
        tenant_id = ctx.tenant_id;
        actor_id = ctx.actor_id;
        created_at = now;
        updated_at = now;
        total_parts = planned_parts intent.chunking;
        status = UploadStatus.active;
        content_type = intent.content_type;
        filename = intent.filename;
        size_hint = intent.size_hint;
        attributes = intent.attributes;
        progress = record { parts = []; received_bytes = 0 };
      } in
      let (r, sessions) = Sessions.update s.sessions session in
      (r, record s { sessions = sessions })

  -- `self.sessions.get(upload_id).await?`, and the test of the status.
  unfoldable pub require_active :
      {A : Type 0}
      → String
      → DefaultUploadCoordinator c Json
      → (UploadSession Json → BlobResult A × DefaultUploadCoordinator c Json)
      → BlobResult A × DefaultUploadCoordinator c Json
  require_active upload_id s next = elim (Sessions.get s.sessions upload_id) [
    | err e ↦ (err e, s)
    | ok session ↦ if is_active session.status then next session else (err inactive, s)
  ]

  -- A part is stored, then recorded.
  unfoldable pub stage_part :
      BlobCtx
      → String
      → ℕ
      → ByteStream
      → ℕ
      → DefaultUploadCoordinator c Json
      → BlobResult PartReceipt × DefaultUploadCoordinator c Json
  stage_part ctx upload_id part_number body now s =
      let key = c.keys.staging_key ctx.tenant_id upload_id part_number in
      let (r, store) = c.blobs.put key (some "application/octet-stream") body s.store in
      elim r [
        | err e ↦ (err e, record s { store = store })
        | ok result ↦
            let receipt = part_receipt part_number now result in
            let (recorded, sessions) = Sessions.record_part s.sessions upload_id receipt in
            let s' : DefaultUploadCoordinator c Json = record {
              store = store;
              sessions = sessions;
            } in
            elim recorded [ err e ↦ (err e, s') | ok _ ↦ (ok receipt, s') ]
      ]

  unfoldable pub accept_part :
      BlobCtx
      → String
      → ℕ
      → ByteStream
      → ℕ
      → DefaultUploadCoordinator c Json
      → BlobResult PartReceipt × DefaultUploadCoordinator c Json
  accept_part ctx upload_id part_number body now s =
      if eqb part_number 0 || ltb c.rules.max_parts part_number
      then (
        err (
            BlobError.invalid (
              text_append "Invalid part number: " (
                text_append (c.show part_number)
                  (text_append " (must be 1-" (text_append (c.show c.rules.max_parts) ")"))))),
        s,
      )
      else require_active upload_id s (λ session. stage_part ctx upload_id part_number body now s)

  abbrev resize :
      UploadSession Json
      → ℕ
      → ℕ
      → DefaultUploadCoordinator c Json
      → BlobResult (UploadSession Json) × DefaultUploadCoordinator c Json
  resize session total_parts now s =
      let (r, sessions) =
        Sessions.update s.sessions
          (record session { total_parts = some total_parts; updated_at = now }) in
      (r, record s { sessions = sessions })

  unfoldable pub set_total_parts :
      BlobCtx
      → String
      → ℕ
      → ℕ
      → DefaultUploadCoordinator c Json
      → BlobResult (UploadSession Json) × DefaultUploadCoordinator c Json
  set_total_parts ctx upload_id total_parts now s = require_active upload_id s (λ session.
      if eqb total_parts 0 || ltb c.rules.max_parts total_parts
      then (
        err (
            BlobError.invalid (
              text_append "Invalid total parts: " (
                text_append (c.show total_parts)
                  (text_append " (must be 1-" (text_append (c.show c.rules.max_parts) ")"))))),
        s,
      )
      else elim (Parts.max_key session.progress.parts) [
        | none ↦ resize session total_parts now s
        | some max_part ↦
            if ltb total_parts max_part
            then (
              err (
                  BlobError.invalid (
                    text_append "Cannot set total parts to " (
                      text_append (c.show total_parts) (
                        text_append " when part "
                          (text_append (c.show max_part) " already exists"))))),
              s,
            )
            else resize session total_parts now s
      ])

  abbrev pub size_check : UploadSession Json → ℕ → Option BlobError
  size_check session total_parts =
      if c.rules.require_fixed_part_size
      then size_error c total_parts session.progress.parts
      else none

  abbrev pub receipt_of :
      String → UploadSession Json → String → ℕ → ℕ → PutResult → BlobReceipt Json
  receipt_of upload_id session final_key total_parts now result = record {
    id = session.blob_id;
    key = final_key;
    size_bytes = result.size_bytes;
    content_type = some session.content_type;
    filename = session.filename;
    etag = result.etag;
    checksum = result.checksum;
    created_at = now;
    attributes = session.attributes;
    upload = UploadInfo.multipart upload_id c.rules.part_size total_parts;
    accepts_ranges = c.blobs.supports_range;
  }

  -- The staged parts are joined under the final key and deleted, and the session is marked.
  unfoldable pub assemble :
      BlobCtx
      → String
      → UploadSession Json
      → ℕ
      → Readings
      → DefaultUploadCoordinator c Json
      → BlobResult (BlobReceipt Json) × DefaultUploadCoordinator c Json
  assemble ctx upload_id session total_parts now s =
      let final_key = c.keys.object_key now.keyed ctx.tenant_id session.blob_id Dict.empty in
      let part_keys = map (c.keys.staging_key ctx.tenant_id upload_id) (part_numbers total_parts) in
      let (r, st) =
        c.blobs.put final_key (some session.content_type) (concat_part_streams c part_keys s.store)
          s.store in
      elim r [
        | err e ↦ (err e, record s { store = st })
        | ok result ↦
            let st' = cleanup_staged_parts c ctx.tenant_id upload_id total_parts st in
            let (marked, sessions) = Sessions.mark_completed s.sessions upload_id now.marked in
            let s' : DefaultUploadCoordinator c Json = record {
              store = st';
              sessions = sessions;
            } in
            elim marked [
              | err e ↦ (err e, s')
              | ok _ ↦
                  (ok (receipt_of upload_id session final_key total_parts now.issued result), s')
            ]
      ]

  unfoldable pub complete :
      BlobCtx
      → String
      → Readings
      → DefaultUploadCoordinator c Json
      → BlobResult (BlobReceipt Json) × DefaultUploadCoordinator c Json
  complete ctx upload_id now s = require_active upload_id s (λ session. elim (total_of session) [
    | none ↦ (err (BlobError.invalid "No parts uploaded"), s)
    | some total_parts ↦ elim (missing_part session.progress.parts (part_numbers total_parts)) [
      | some p ↦ (err (BlobError.invalid (text_append "Missing part " (c.show p))), s)
      | none ↦ elim (size_check session total_parts) [
        | some e ↦ (err e, s)
        | none ↦ assemble ctx upload_id session total_parts now s
      ]
    ]
  ])

  -- The status is not looked at.
  unfoldable pub abort :
      BlobCtx
      → String
      → ℕ
      → DefaultUploadCoordinator c Json
      → BlobResult (Unit {0}) × DefaultUploadCoordinator c Json
  abort ctx upload_id now s = elim (Sessions.get s.sessions upload_id) [
    | err e ↦ (err e, s)
    | ok session ↦
        let store = cleanup_staged_parts c ctx.tenant_id upload_id (uploaded session) s.store in
        let (r, sessions) = Sessions.mark_aborted s.sessions upload_id now in
        (r, record { store = store; sessions = sessions })
  ]

  unfoldable pub get_session :
      BlobCtx → String → DefaultUploadCoordinator c Json → BlobResult (UploadSession Json)
  get_session ctx upload_id s = Sessions.get s.sessions upload_id
