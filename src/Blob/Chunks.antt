-- ===== src/Blob/Chunks.antt =====
-- `BlobAdapter::put_chunk` of dog-blob/src/adapter.rs, with `ChunkSession` and `ChunkResult` of types.rs: a file sent
-- in chunks, which are kept as temporary files until as many as announced have come. A set of numbers is
-- a map to `Unit`.
pub mod Laws
pub mod Whole
use Prim.Native.String.{◌++◌ as text_append}
use dogrs.Base.{
  ℕ, ◌%◌, ◌^◌, String, Option, none, some, List, [], ◌∷◌, ◌++◌, eqb, length, if◌then◌else◌,
  string_eq,
}
use dogrs.Base.Results.{Result, ok, err}
use dogrs.Blob.Adapter
use dogrs.Blob.Adapter.{BlobState, BlobPut, or_else}
use dogrs.Blob.Coordinator.{Readings}
use dogrs.Blob.Parts
use dogrs.Blob.Parts.{PartMap}
use dogrs.Blob.Staging.{numbers}
use dogrs.Blob.Types.{BlobError, BlobResult, BlobCtx, BlobReceipt}
use dogrs.Dict
use dogrs.Dict.{Dict}

-- The calls of the file system, with the texts of its errors.
pub record TempFiles : Type 1 where
  pub State : Type 0
  pub create_dir_all : String → State → Result String (Unit {0}) × State
  pub write : String → List ℕ → State → Result String (Unit {0}) × State
  pub read : String → State → Result String (List ℕ)
  pub remove_dir_all : String → State → State

pub data ChunkResult (Json : Type 0) : Type 0 where
  partial : ℕ → ℕ → ChunkResult Json
  complete : BlobReceipt Json → ChunkResult Json

pub record ChunkSession : Type 0 where
  pub session_id : String
  pub blob_id : String
  pub tenant_id : String
  pub total_chunks : ℕ
  pub received_chunks : PartMap (Unit {0})
  pub content_type : Option String
  pub filename : Option String
  pub temp_dir : String
  pub created_at : ℕ

-- `show3` displays a number with at least three digits.
pub record ChunkSetup (Json : Type 0) : Type 1 where
  pub adapter : BlobState Json
  pub files : TempFiles
  pub show3 : ℕ → String

pub record ChunkState {Json : Type 0} (c : ChunkSetup Json) : Type 0 where
  pub chunk_sessions : Dict String ChunkSession
  pub files : c.files.State
  pub store : c.adapter.uploads.blobs.State

abbrev pub mark_received : ChunkSession → ℕ → ChunkSession
mark_received s chunk_index = record {
  session_id = s.session_id;
  blob_id = s.blob_id;
  tenant_id = s.tenant_id;
  total_chunks = s.total_chunks;
  received_chunks = Parts.insert s.received_chunks chunk_index tt;
  content_type = s.content_type;
  filename = s.filename;
  temp_dir = s.temp_dir;
  created_at = s.created_at;
}

abbrev pub chunks_received : ChunkSession → ℕ
chunks_received s = length s.received_chunks % 2 ^ 32

module _ {Json : Type 0} (c : ChunkSetup Json) where
  -- `blob_id` is fresh.
  abbrev new_session : BlobCtx → String → ℕ → BlobPut Json → String → ℕ → ChunkSession
  new_session ctx session_id total_chunks p blob_id now = record {
    session_id = session_id;
    blob_id = blob_id;
    tenant_id = ctx.tenant_id;
    total_chunks = total_chunks;
    received_chunks = [];
    content_type = p.content_type;
    filename = p.filename;
    temp_dir = text_append "/tmp/dog_blob_chunks_" session_id;
    created_at = now;
  }

  abbrev pub chunk_path : String → ℕ → String
  chunk_path temp_dir i = text_append temp_dir (text_append "/chunk_" (c.show3 i))

  unfoldable pub write_chunk :
      String → ℕ → List ℕ → c.files.State → Result BlobError (Unit {0}) × c.files.State
  write_chunk temp_dir chunk_index chunk files =
      let (made, files') = c.files.create_dir_all temp_dir files in
      elim made [
        | err e ↦
            (err (BlobError.invalid (text_append "Failed to create chunk directory: " e)), files')
        | ok _ ↦
            let (written, files'') = c.files.write (chunk_path temp_dir chunk_index) chunk files' in
            elim written [
              | err e ↦ (err (BlobError.invalid (text_append "Failed to write chunk: " e)), files'')
              | ok _ ↦ (ok tt, files'')
            ]
      ]

  unfoldable pub read_chunks : String → List ℕ → c.files.State → Result BlobError (List ℕ)
  read_chunks temp_dir [] files = ok []
  read_chunks temp_dir (i ∷ is) files =
      let rest = read_chunks temp_dir is files in
      elim (c.files.read (chunk_path temp_dir i) files) [
        | err e ↦ err (
            BlobError.invalid (
              text_append "Failed to read chunk "
                (text_append (c.adapter.uploads.show i) (text_append ": " e))))
        | ok chunk ↦ elim rest [ err e ↦ err e | ok bytes ↦ ok (chunk ++ bytes) ]
      ]

  abbrev pub blob_put : ChunkSession → List ℕ → BlobPut Json
  blob_put s bytes = record {
    content_type = some (or_else s.content_type "application/octet-stream");
    filename = some (or_else s.filename "upload.bin");
    size_hint = some (length bytes);
    attributes = c.adapter.null;
    key_hints = Dict.empty;
    idempotency_key = none;
  }

  -- All the chunks are there. `id` is fresh. The times are those of the key, of a new session, and of the receipt.
  unfoldable pub reassemble :
      BlobCtx
      → String
      → ℕ
      → ChunkSession
      → String
      → Readings
      → ChunkState c
      → BlobResult (ChunkResult Json) × ChunkState c
  reassemble ctx session_id total_chunks session id now s =
      elim (read_chunks session.temp_dir (numbers 0 total_chunks) s.files) [
        | err e ↦ (err e, s)
        | ok bytes ↦
            let (r, store) =
              Adapter.put c.adapter ctx (blob_put session bytes) (ok bytes ∷ []) id now.keyed
                now.issued s.store in
            elim r [
              | err e ↦ (
                err e,
                record { chunk_sessions = s.chunk_sessions; files = s.files; store = store },
              )
              | ok receipt ↦ (
                ok (ChunkResult.complete receipt),
                record {
                  chunk_sessions = Dict.remove s.chunk_sessions session_id;
                  files = c.files.remove_dir_all session.temp_dir s.files;
                  store = store;
                },
              )
            ]
      ]

  -- The chunk is in its file.
  unfoldable pub receive_chunk :
      BlobCtx
      → String
      → ℕ
      → ℕ
      → ChunkSession
      → String
      → Readings
      → ChunkState c
      → BlobResult (ChunkResult Json) × ChunkState c
  receive_chunk ctx session_id chunk_index total_chunks found id now s =
      let session = mark_received found chunk_index in
      let s' : ChunkState c = record {
        chunk_sessions = Dict.put s.chunk_sessions session_id session;
        files = s.files;
        store = s.store;
      } in
      if eqb (chunks_received session) total_chunks
      then reassemble ctx session_id total_chunks session id now s'
      else (ok (ChunkResult.partial (chunks_received session) total_chunks), s')

  -- The session is there.
  unfoldable pub store_chunk :
      BlobCtx
      → String
      → ℕ
      → ℕ
      → ChunkSession
      → List ℕ
      → String
      → Readings
      → ChunkState c
      → BlobResult (ChunkResult Json) × ChunkState c
  store_chunk ctx session_id chunk_index total_chunks session chunk id now s =
      let (r, files) = write_chunk session.temp_dir chunk_index chunk s.files in
      let s' : ChunkState c = record {
        chunk_sessions = Dict.put s.chunk_sessions session_id session;
        files = files;
        store = s.store;
      } in
      elim r [
        | err e ↦ (err e, s')
        | ok _ ↦ receive_chunk ctx session_id chunk_index total_chunks session id now s'
      ]

  unfoldable pub put_chunk :
      BlobCtx
      → String
      → ℕ
      → ℕ
      → BlobPut Json
      → List ℕ
      → String
      → String
      → Readings
      → ChunkState c
      → BlobResult (ChunkResult Json) × ChunkState c
  put_chunk ctx session_id chunk_index total_chunks p chunk blob_id id now s =
      store_chunk ctx session_id chunk_index total_chunks
        (Dict.get_or_default s.chunk_sessions session_id
          (new_session ctx session_id total_chunks p blob_id now.marked))
        chunk id now s
