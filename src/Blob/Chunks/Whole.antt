-- ===== src/Blob/Chunks/Whole.antt =====
-- A file whose chunks have all come is put, with its chunks in order.
use Prim.Native.String.{◌++◌ as text_append}
use dogrs.Base.{
  ℕ, zero, suc, ◌+◌, ◌<◌, ◌≤◌, subst, ◌≡◌, ◌≢◌, refl, sym, ap, ◌∙◌, String, false, Option, none,
  some, List, [], ◌∷◌, ◌++◌, arith, eqb, eqb_iff, length, if◌then◌else◌, ◌==◌, string_eq,
  str_beq_refl, str_beq_ne, In, here, there, Bool-cases, inl, inr, ltb,
}
use mathlib.Core.List.{append-nil}
use text.Mathlib.TextLemmas.{append_cancel_left}
use dogrs.Base.Results.{ok}
use dogrs.Blob.Adapter.{BlobPut}
use dogrs.Blob.Coordinator.{Readings}
use dogrs.Blob.Adapter.Laws.{puts, put_body-contents}
use dogrs.Blob.Chunks.{
  TempFiles, ChunkSetup, ChunkState, ChunkSession, ChunkResult, mark_received, chunks_received,
  chunk_path, blob_put, read_chunks, write_chunk, reassemble, receive_chunk, store_chunk, put_chunk,
}
use dogrs.Blob.Staging.{numbers}
use dogrs.Blob.Store.{IsReliable, bytes_of}
use dogrs.Blob.Types.{BlobResult, BlobCtx, BlobReceipt}
use dogrs.Dict
use dogrs.Dict.{Dict, get_or_default-get, get-remove}

-- What is relied on in a file system that works: a file can be written in a directory that has just been made, and then has
-- the bytes, as no other file has; and it can be read.
pub record IsDisk (f : TempFiles) : Type 0 where
  pub contents : f.State → String → Option (List ℕ)
  pub made : (dir : String) (st : f.State) → (f.create_dir_all dir st).0 ≡ ok tt
  pub made_contents :
      (dir path : String) (st : f.State)
      → contents (f.create_dir_all dir st).1 path ≡ contents st path
  pub written :
      (dir name : String) (bytes : List ℕ) (st : f.State)
      → (f.write (text_append dir (text_append "/chunk_" name)) bytes (f.create_dir_all dir st).1).0
        ≡ ok tt
  pub written_contents :
      (path other : String) (bytes : List ℕ) (st : f.State)
      → contents (f.write path bytes st).1 other
        ≡ (if path == other then some bytes else contents st other)
  pub read_ok :
      (path : String) (bytes : List ℕ) (st : f.State)
      → contents st path ≡ some bytes
      → f.read path st ≡ ok bytes

unfoldable pub in_order : (ℕ → List ℕ) → List ℕ → List ℕ
in_order pieces [] = []
in_order pieces (i ∷ is) = pieces i ++ in_order pieces is

numbers-bound : (i from count : ℕ) → In i (numbers from count) → i < from + count
unfolding numbers
numbers-bound i from zero m = elim m [ ]
numbers-bound i from (suc count) (here e) = omega (arith, e)
numbers-bound i from (suc count) (there m) = omega (arith, numbers-bound i (suc from) count m)

one_chunk : (bytes : List ℕ) → bytes_of (ok bytes ∷ []) ≡ ok bytes
unfolding bytes_of
one_chunk bytes = ap ok (append-nil bytes)

module _ {Json : Type 0} (c : ChunkSetup Json) (h : IsReliable c.adapter.uploads.blobs)
    (d : IsDisk c.files) where
  abbrev IsOnDisk : String → (ℕ → List ℕ) → ℕ → c.files.State → Type 0
  IsOnDisk dir pieces i files = d.contents files (chunk_path c dir i) ≡ some (pieces i)

  read_chunks-in_order :
      (dir : String) (pieces : ℕ → List ℕ) (is : List ℕ) (files : c.files.State)
      → ((i : ℕ) → In i is → IsOnDisk dir pieces i files)
      → read_chunks c dir is files ≡ ok (in_order pieces is)
  unfolding read_chunks in_order
  read_chunks-in_order dir pieces [] files there_are = refl
  read_chunks-in_order dir pieces (i ∷ is) files there_are =
      rw
        (
          d.read_ok _ (pieces i) files (there_are i (here refl)),
          read_chunks-in_order dir pieces is files (λ j m. there_are j (there m)),
          read_chunks,
        )
        refl

  write_chunk-ok :
      (dir : String) (i : ℕ) (chunk : List ℕ) (files : c.files.State)
      → (write_chunk c dir i chunk files).0 ≡ ok tt
  unfolding write_chunk
  write_chunk-ok dir i chunk files =
      rw (d.made dir files, d.written dir (c.show3 i) chunk files, write_chunk) refl

  write_chunk-contents :
      (dir : String) (i : ℕ) (chunk : List ℕ) (path : String) (files : c.files.State)
      → d.contents (write_chunk c dir i chunk files).1 path
        ≡ (if chunk_path c dir i == path then some chunk else d.contents files path)
  unfolding write_chunk
  write_chunk-contents dir i chunk path files =
      rw (d.made dir files, d.written dir (c.show3 i) chunk files, write_chunk)
        (d.written_contents _ path chunk _ ∙ rw (d.made_contents dir path files) refl)

  write_chunk-IsOnDisk :
      (dir : String) (pieces : ℕ → List ℕ) (total i : ℕ) (files : c.files.State)
      → ((m n : ℕ) → c.show3 m ≡ c.show3 n → m ≡ n)
      → ((j : ℕ) → j < total → j ≢ i → IsOnDisk dir pieces j files)
      → (j : ℕ) → In j (numbers 0 total)
      → IsOnDisk dir pieces j (write_chunk c dir i (pieces i) files).1
  write_chunk-IsOnDisk dir pieces total i files apart rest j m =
      let below : j < total = omega (arith, numbers-bound j 0 total m) in
      let path_ne : i ≢ j → chunk_path c dir i ≢ chunk_path c dir j =
        λ ne e. ne (apart i j (append_cancel_left "/chunk_" _ _ (append_cancel_left dir _ _ e))) in
      write_chunk-contents dir i (pieces i) (chunk_path c dir j) files
      ∙ elim (Bool-cases (eqb i j)) [
        | inl same ↦ rw ((eqb_iff i j).0 same, str_beq_refl (chunk_path c dir j)) refl
        | inr other ↦
            let ne : i ≢ j = λ e. ground (arith, other, eqb_iff i j, e) in
            rw (str_beq_ne _ _ (path_ne ne))
              (rest j below (λ e. ground (arith, other, eqb_iff i j, e)))
      ]

  -- The call completes the file: a receipt of the bytes, stored under its key, and no session.
  abbrev pub Completes :
      BlobCtx
      → String
      → String
      → Readings
      → List ℕ
      → BlobResult (ChunkResult Json) × ChunkState c
      → Type 0
  Completes ctx session_id id now bytes x =
      ((receipt : BlobReceipt Json) × (x.0 ≡ ok (ChunkResult.complete receipt))
        × (receipt.key ≡ c.adapter.uploads.keys.object_key now.keyed ctx.tenant_id id Dict.empty)
        × (receipt.size_bytes ≡ length bytes))
      × (h.contents x.1.store
            (c.adapter.uploads.keys.object_key now.keyed ctx.tenant_id id Dict.empty)
          ≡ some bytes)
      × (Dict.get x.1.chunk_sessions session_id ≡ none)

  reassemble-Completes :
      (ctx : BlobCtx) (session_id : String) (total_chunks : ℕ) (session : ChunkSession)
      (pieces : ℕ → List ℕ) (id : String) (now : Readings) (s : ChunkState c)
      → ((j : ℕ) → In j (numbers 0 total_chunks) → IsOnDisk session.temp_dir pieces j s.files)
      → ltb c.adapter.max_blob_bytes (length (in_order pieces (numbers 0 total_chunks))) ≡ false
      → Completes ctx session_id id now
          (in_order pieces (numbers 0 total_chunks))
          (reassemble c ctx session_id total_chunks session id now s)
  unfolding reassemble
  reassemble-Completes ctx session_id total_chunks session pieces id now s there_are small =
      let bytes = in_order pieces (numbers 0 total_chunks) in
      let key = c.adapter.uploads.keys.object_key now.keyed ctx.tenant_id id Dict.empty in
      let body = ok bytes ∷ [] in
      let done =
        puts c.adapter h ctx (blob_put c session bytes) body bytes id now.keyed now.issued s.store
          (one_chunk bytes) small in
      let kept =
        put_body-contents c.adapter h key key (blob_put c session bytes) body bytes s.store
          (one_chunk bytes) in
      rw (read_chunks-in_order session.temp_dir pieces _ s.files there_are, done, reassemble)
        (
          (_, refl, refl, h.stored_size bytes),
          ap (λ x. h.contents x.1 key) done ∙ kept ∙ rw (str_beq_refl key) refl,
          get-remove s.chunk_sessions session_id session_id ∙ rw (str_beq_refl session_id) refl,
        )

  -- Let the store be reliable and the disk work, let numbers be displayed apart, and let a
  -- session be open under the id of a call. When the chunk of the call makes the number of
  -- received chunks the total of the call, the files of all other chunks up to the total hold the
  -- pieces of a file, and this file is no longer than the limit, then `put_chunk` completes it:
  -- the pieces in the order of their numbers are stored under the key of the receipt, which has
  -- their size, and the session is gone.
  pub put_chunk-Completes :
      (ctx : BlobCtx) (session_id : String) (chunk_index total_chunks : ℕ) (p : BlobPut Json)
      (pieces : ℕ → List ℕ) (blob_id id : String) (now : Readings) (s : ChunkState c)
      (session : ChunkSession)
      → Dict.get s.chunk_sessions session_id ≡ some session
      → ((m n : ℕ) → c.show3 m ≡ c.show3 n → m ≡ n)
      → chunks_received (mark_received session chunk_index) ≡ total_chunks
      → ((j : ℕ)
          → j < total_chunks
          → j ≢ chunk_index
          → d.contents s.files (chunk_path c session.temp_dir j) ≡ some (pieces j))
      → length (in_order pieces (numbers 0 total_chunks)) ≤ c.adapter.max_blob_bytes
      → Completes ctx session_id id now (in_order pieces (numbers 0 total_chunks)) (
          put_chunk c ctx session_id chunk_index total_chunks p
            (pieces chunk_index)
            blob_id
            id
            now
            s)
  unfolding put_chunk store_chunk receive_chunk
  put_chunk-Completes ctx session_id chunk_index total_chunks p pieces blob_id id now s session
        found apart all rest small =
      let whole =
        reassemble-Completes ctx session_id total_chunks (mark_received session chunk_index) pieces
          id now _
          (write_chunk-IsOnDisk session.temp_dir pieces total_chunks chunk_index s.files apart rest)
          (ground (arith, small)) in
      subst
        (λ x.
          Completes ctx session_id id now (in_order pieces (numbers 0 total_chunks))
            (store_chunk c ctx session_id chunk_index total_chunks x (pieces chunk_index) id now s))
        (sym (get_or_default-get s.chunk_sessions session_id _ session found))
        (rw
          (
            write_chunk-ok session.temp_dir chunk_index (pieces chunk_index) s.files,
            store_chunk,
            receive_chunk,
            (eqb_iff (chunks_received (mark_received session chunk_index)) total_chunks).1 all,
          )
          whole)
