-- ===== src/Blob/Sessions.antt =====
-- The sessions of uploads, kept in memory: dog-blob/src/session_store.rs.
use dogrs.Base.{ℕ, ◌%◌, ◌^◌, String, none, some, string_eq}
use dogrs.Base.Results.{ok, err}
use dogrs.Blob.Parts
use dogrs.Blob.Types.{BlobError, BlobResult, UploadSession, UploadStatus, PartReceipt}
use dogrs.Dict
use dogrs.Dict.{Dict}

abbrev pub MemoryUploadSessionStore : Type 0 → Type 0
MemoryUploadSessionStore Json = Dict String (UploadSession Json)

module _ {Json : Type 0} where
  unfoldable pub get : MemoryUploadSessionStore Json → String → BlobResult (UploadSession Json)
  get sessions id = elim (Dict.get sessions id) [
    | none ↦ err (BlobError.not_found "Upload session not found")
    | some session ↦ ok session
  ]

  -- `create` and `update`, which are the same.
  unfoldable pub update :
      MemoryUploadSessionStore Json
      → UploadSession Json
      → BlobResult (UploadSession Json) × MemoryUploadSessionStore Json
  update sessions session = (ok session, Dict.put sessions session.upload_id session)

  unfoldable pub delete : MemoryUploadSessionStore Json → String → MemoryUploadSessionStore Json
  delete sessions id = Dict.remove sessions id

  unfoldable pub with_session_mut :
      MemoryUploadSessionStore Json
      → String
      → (UploadSession Json → UploadSession Json)
      → BlobResult (Unit {0}) × MemoryUploadSessionStore Json
  with_session_mut sessions id f = elim (Dict.get sessions id) [
    | none ↦ (err (BlobError.not_found "Upload session not found"), sessions)
    | some session ↦ (ok tt, Dict.put sessions id (f session))
  ]

  abbrev pub add_part : PartReceipt → UploadSession Json → UploadSession Json
  add_part receipt session =
      let parts = Parts.insert session.progress.parts receipt.part_number receipt in
      record session {
        progress = record {
          parts = parts;
          received_bytes = Parts.total (λ (p : PartReceipt). p.size_bytes) parts % 2 ^ 64;
        };
      }

  unfoldable pub record_part :
      MemoryUploadSessionStore Json
      → String
      → PartReceipt
      → BlobResult (Unit {0}) × MemoryUploadSessionStore Json
  record_part sessions id receipt = with_session_mut sessions id (add_part receipt)

  abbrev pub set_status : UploadStatus → UploadSession Json → UploadSession Json
  set_status status session = record session { status = status }

  -- The time is the store's own, not that of the caller.
  unfoldable pub mark_completed :
      MemoryUploadSessionStore Json
      → String
      → ℕ
      → BlobResult (Unit {0}) × MemoryUploadSessionStore Json
  mark_completed sessions id now =
      with_session_mut sessions id (set_status (UploadStatus.completed now))

  unfoldable pub mark_failed :
      MemoryUploadSessionStore Json
      → String
      → ℕ
      → String
      → BlobResult (Unit {0}) × MemoryUploadSessionStore Json
  mark_failed sessions id now reason =
      with_session_mut sessions id (set_status (UploadStatus.failed now reason))

  unfoldable pub mark_aborted :
      MemoryUploadSessionStore Json
      → String
      → ℕ
      → BlobResult (Unit {0}) × MemoryUploadSessionStore Json
  mark_aborted sessions id now =
      with_session_mut sessions id (set_status (UploadStatus.aborted now))
