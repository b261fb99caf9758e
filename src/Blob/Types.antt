-- ===== src/Blob/Types.antt =====
-- The data of dog-blob: types.rs, upload.rs, receipt.rs, config.rs and error.rs of dog-blob/src. `Json` is the type of
-- the values of serde_json; times are seconds since 1970.
use Prim.Native.String.{◌++◌ as text_append}
use dogrs.Base.{ℕ, String, Bool, Option}
use dogrs.Base.Results.{Result}
use dogrs.Blob.Parts.{PartMap}

-- The sources of errors are their texts.
pub data BlobError : Type 0 where
  not_found : String → BlobError
  invalid : String → BlobError
  unsupported : BlobError
  upload_not_found : String → BlobError
  upload_failed : String → BlobError
  backend : String → BlobError
  io : String → BlobError
  serialization : String → BlobError

-- Its display.
unfoldable pub display : BlobError → String
display (BlobError.not_found id) = text_append "Blob not found: " id
display (BlobError.invalid message) = text_append "Invalid request: " message
display BlobError.unsupported = "Operation not supported by this store"
display (BlobError.upload_not_found upload_id) = text_append "Upload session not found: " upload_id
display (BlobError.upload_failed reason) = text_append "Upload failed: " reason
display (BlobError.backend source) = text_append "Storage backend error: " source
display (BlobError.io source) = text_append "I/O error: " source
display (BlobError.serialization source) = text_append "Serialization error: " source

abbrev pub BlobResult : Type 0 → Type 0
BlobResult A = Result BlobError A

pub record BlobCtx : Type 0 where
  pub tenant_id : String
  pub actor_id : Option String
  pub request_id : String

pub data Chunking : Type 0 where
  parts : ℕ → Option ℕ → Chunking
  single : Chunking

pub record UploadIntent (Json : Type 0) : Type 0 where
  pub id : String
  pub key : String
  pub content_type : String
  pub filename : Option String
  pub size_hint : Option ℕ
  pub attributes : Json
  pub chunking : Chunking
  pub idempotency_key : Option String

pub data UploadStatus : Type 0 where
  active : UploadStatus
  completed : ℕ → UploadStatus
  aborted : ℕ → UploadStatus
  failed : ℕ → String → UploadStatus

pub record PartReceipt : Type 0 where
  pub part_number : ℕ
  pub size_bytes : ℕ
  pub etag : Option String
  pub checksum : Option String
  pub uploaded_at : ℕ

pub record UploadProgress : Type 0 where
  pub parts : PartMap PartReceipt
  pub received_bytes : ℕ

pub record UploadSession (Json : Type 0) : Type 0 where
  pub upload_id : String
  pub blob_id : String
  pub tenant_id : String
  pub actor_id : Option String
  pub created_at : ℕ
  pub updated_at : ℕ
  pub total_parts : Option ℕ
  pub status : UploadStatus
  pub content_type : String
  pub filename : Option String
  pub size_hint : Option ℕ
  pub attributes : Json
  pub progress : UploadProgress

pub record UploadRules : Type 0 where
  pub part_size : ℕ
  pub max_parts : ℕ
  pub require_fixed_part_size : Bool
  pub allow_out_of_order : Bool

pub data UploadInfo : Type 0 where
  single : String → UploadInfo
  multipart : String → ℕ → ℕ → UploadInfo

pub record BlobReceipt (Json : Type 0) : Type 0 where
  pub id : String
  pub key : String
  pub size_bytes : ℕ
  pub content_type : Option String
  pub filename : Option String
  pub etag : Option String
  pub checksum : Option String
  pub created_at : ℕ
  pub attributes : Json
  pub upload : UploadInfo
  pub accepts_ranges : Bool
