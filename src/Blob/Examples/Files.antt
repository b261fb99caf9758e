-- ===== src/Blob/Examples/Files.antt =====
-- The theorems on single blobs, and on files sent in chunks, over stores that are maps in memory.
use dogrs.Base.{
  ℕ, zero, suc, ◌≡◌, ◌≢◌, ◌<◌, refl, ap, String, true, false, Option, none, some, List, [], ◌∷◌,
  arith, string_eq, In, ltb, if◌then◌else◌, map,
}
use dogrs.Base.Results.{Result, ok, err}
use dogrs.Blob.Adapter.{BlobState, BlobPut, OpenedBlob, put, open_blob}
use dogrs.Blob.Coordinator.{Readings}
use dogrs.Blob.Adapter.Laws.{put-open_blob, put-open_lost}
use dogrs.Blob.Chunks.{
  TempFiles, ChunkSetup, ChunkState, ChunkSession, ChunkResult, chunk_path, put_chunk,
}
use dogrs.Blob.Chunks.Laws.{ChunkCall, run, run-never_complete}
use dogrs.Blob.Chunks.Whole.{IsDisk, in_order, Completes, put_chunk-Completes}
use dogrs.Blob.Examples.{blobs, reliable, marks, setup, owner, first, size, size-marks}
use dogrs.Blob.Keys.{default_key_strategy}
use dogrs.Blob.Parts
use dogrs.Blob.Staging.{numbers}
use dogrs.Blob.Store.{bytes_of}
use dogrs.Blob.Types.{BlobError, BlobReceipt, UploadInfo}
use dogrs.Dict
use dogrs.Dict.{Dict, get-put, get-put_self, get-empty}

abbrev drop : ℕ → String → String
drop zero s = s
drop (suc n) String.[] = String.[]
drop (suc n) (String.◌∷◌ x s) = drop n s

-- The year ends at the time 1000, in December.
abbrev adapter : BlobState String
adapter = record {
  uploads = record {
    blobs = blobs;
    keys = default_key_strategy (record {
      year = λ now. if ltb now 1000 then "2025" else "2026";
      month = λ now. if ltb now 1000 then "12" else "01";
      pad6 = marks;
    });
    rules = setup.rules;
    show = marks;
  };
  has_uploads = false;
  max_blob_bytes = 100;
  null = "null";
}

abbrev song : BlobPut String
song = record {
  content_type = some "audio/mpeg";
  filename = some "song.mp3";
  size_hint = some 3;
  attributes = "{}";
  key_hints = Dict.empty;
  idempotency_key = none;
}

put-open_blob_example :
    ((r : BlobReceipt String) × ((put adapter owner song
          (ok (1 ∷ 2 ∷ 3 ∷ []) ∷ [])
          "b"
          990
          991
          Dict.empty).0
        ≡ ok r)
      × (r.size_bytes ≡ 3)
      × (r.id ≡ "b"))
    × ((o : OpenedBlob String) × (open_blob adapter owner "b" none 995 996
            (put adapter owner song (ok (1 ∷ 2 ∷ 3 ∷ []) ∷ []) "b" 990 991 Dict.empty).1
          ≡ ok o)
        × (bytes_of o.stream ≡ ok (1 ∷ 2 ∷ 3 ∷ [])))
unfolding bytes_of
put-open_blob_example =
    put-open_blob adapter reliable owner song (ok (1 ∷ 2 ∷ 3 ∷ []) ∷ []) (1 ∷ 2 ∷ 3 ∷ []) "b" 990
      991 995 996 Dict.empty refl refl refl

years_apart :
    adapter.uploads.keys.object_key 990 "acme/" "b" Dict.empty
    ≢ adapter.uploads.keys.object_key 1005 "acme/" "b" Dict.empty
years_apart e = let letters : b'5' ≡ b'6' = ap (λ s. first (drop 9 s)) e in ground (arith, letters)

put-open_lost_example :
    ((r : BlobReceipt String) × ((put adapter owner song
          (ok (1 ∷ 2 ∷ 3 ∷ []) ∷ [])
          "b"
          990
          991
          Dict.empty).0
        ≡ ok r))
    × ((e : BlobError) × (open_blob adapter owner "b" none 1005 1006
            (put adapter owner song (ok (1 ∷ 2 ∷ 3 ∷ []) ∷ []) "b" 990 991 Dict.empty).1
          ≡ err e))
unfolding bytes_of
put-open_lost_example =
    put-open_lost adapter reliable owner song (ok (1 ∷ 2 ∷ 3 ∷ []) ∷ []) (1 ∷ 2 ∷ 3 ∷ []) "b" none
      990 991 1005 1006 Dict.empty refl refl years_apart
      (get-empty (adapter.uploads.keys.object_key 1005 "acme/" "b" Dict.empty))

abbrev found : Option (List ℕ) → Result String (List ℕ)
found none = err "No such file"
found (some bytes) = ok bytes

abbrev files : TempFiles
files = record {
  State = Dict String (List ℕ);
  create_dir_all = λ dir st. (ok tt, st);
  write = λ path bytes st. (ok tt, Dict.put st path bytes);
  read = λ path st. found (Dict.get st path);
  remove_dir_all = λ dir st. st;
}

abbrev disk : IsDisk files
disk = record {
  contents = Dict.get;
  made = λ dir st. refl;
  made_contents = λ dir path st. refl;
  written = λ dir name bytes st. refl;
  written_contents = λ path other bytes st. get-put st path other bytes;
  read_ok = λ path bytes st e. ap found e;
}

abbrev chunks : ChunkSetup String
chunks = record { adapter = adapter; files = files; show3 = marks }

abbrev session : List ℕ → ChunkSession
session received = record {
  session_id = "s";
  blob_id = "b";
  tenant_id = "acme/";
  total_chunks = 2;
  received_chunks = map (λ i. (i, tt)) received;
  content_type = none;
  filename = none;
  temp_dir = "/tmp/dog_blob_chunks_s";
  created_at = 900;
}

marks-injective : (m n : ℕ) → marks m ≡ marks n → m ≡ n
marks-injective m n e =
    let sizes : size (marks m) ≡ size (marks n) = ap size e in
    omega (arith, sizes, size-marks m, size-marks n)

abbrev times : Readings
times = record { keyed = 950; marked = 949; issued = 951 }

abbrev pieces : ℕ → List ℕ
pieces zero = 1 ∷ 2 ∷ []
pieces (suc i) = 3 ∷ []

-- The second of two chunks has come.
abbrev half : ChunkState chunks
half = record {
  chunk_sessions = Dict.put Dict.empty "s" (session (1 ∷ []));
  files = Dict.put Dict.empty (chunk_path chunks "/tmp/dog_blob_chunks_s" 1) (3 ∷ []);
  store = Dict.empty;
}

other_piece :
    (j : ℕ)
    → j < 2
    → j ≢ 0
    → Dict.get half.files (chunk_path chunks "/tmp/dog_blob_chunks_s" j) ≡ some (pieces j)
other_piece zero below ne = absurd (ne refl)
other_piece (suc zero) below ne =
    get-put_self Dict.empty (chunk_path chunks "/tmp/dog_blob_chunks_s" 1) _
other_piece (suc (suc j)) below ne = absurd (omega (arith, below))

put_chunk-Completes_example :
    Completes chunks reliable disk owner "s" "b" times
      (1 ∷ 2 ∷ 3 ∷ [])
      (put_chunk chunks owner "s" 0 2 song (1 ∷ 2 ∷ []) "c" "b" times half)
unfolding in_order numbers Parts.insert
put_chunk-Completes_example =
    put_chunk-Completes chunks reliable disk owner "s" 0 2 song pieces "c" "b" times half
      (session (1 ∷ [])) (get-put_self Dict.empty "s" _) marks-injective refl other_piece
      (omega arith)

-- Of two chunks, those of the numbers 0, 5 and 1 have come, in this order.
abbrev astray : ChunkState chunks
astray = record {
  chunk_sessions = Dict.put Dict.empty "s" (session (0 ∷ 1 ∷ 5 ∷ []));
  files = Dict.empty;
  store = Dict.empty;
}

abbrev again : ChunkCall String
again = record {
  ctx = owner;
  chunk_index = 0;
  put = song;
  chunk = 1 ∷ 2 ∷ [];
  blob_id = "c";
  id = "b";
  now = times;
}

abbrev receipt : BlobReceipt String
receipt = record {
  id = "b";
  key = "k";
  size_bytes = 3;
  content_type = none;
  filename = none;
  etag = none;
  checksum = none;
  created_at = 950;
  attributes = "null";
  upload = UploadInfo.single "put";
  accepts_ranges = true;
}

run-never_complete_example :
    ¬ In (ok (ChunkResult.complete receipt)) (run chunks "s" 2 (again ∷ again ∷ []) astray)
run-never_complete_example =
    run-never_complete chunks "s" 2 (again ∷ again ∷ []) astray (session (0 ∷ 1 ∷ 5 ∷ [])) receipt
      (get-put_self Dict.empty "s" _) (omega arith) (omega arith)
