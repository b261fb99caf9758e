-- ===== src/Blob/Store.antt =====
-- The traits `BlobStore` and `BlobKeyStrategy` of dog-blob/src/store.rs, with the data of store.rs and of
-- types.rs that they use. What only a caller of the store asks for, such as signed addresses, is left out.
use dogrs.Base.{
  ℕ, ◌≡◌, ◌≢◌, String, Bool, Option, none, some, List, [], ◌∷◌, ◌++◌, length, if◌then◌else◌, ◌==◌,
  string_eq,
}
use dogrs.Base.Results.{Result, ok, err}
use dogrs.Dict.{Dict}
use dogrs.Blob.Types.{BlobError, BlobResult}

-- `ByteStream`: the chunks of bytes, and the errors, that it yields.
abbrev pub ByteStream : Type 0
ByteStream = List (Result String (List ℕ))

-- The bytes of a stream, or its first error.
unfoldable pub bytes_of : ByteStream → Result String (List ℕ)
bytes_of [] = ok []
bytes_of (err e ∷ s) = err e
bytes_of (ok chunk ∷ s) = elim (bytes_of s) [ err e ↦ err e | ok bytes ↦ ok (chunk ++ bytes) ]

pub record PutResult : Type 0 where
  pub etag : Option String
  pub size_bytes : ℕ
  pub checksum : Option String

pub record ByteRange : Type 0 where
  pub start : ℕ
  pub end : Option ℕ

pub record ResolvedRange : Type 0 where
  pub start : ℕ
  pub end : ℕ
  pub total_size : ℕ

pub record GetResult : Type 0 where
  pub stream : ByteStream
  pub size_bytes : ℕ
  pub content_type : Option String
  pub etag : Option String
  pub resolved_range : Option ResolvedRange

-- A store acts on a state of its own. `Info` is what a listing gives for each blob.
pub record BlobStore : Type 1 where
  pub State : Type 0
  pub Info : Type 0
  pub put : String → Option String → ByteStream → State → BlobResult PutResult × State
  pub put_with_metadata :
      String → Option String → Option String → ByteStream → State → BlobResult PutResult × State
  pub get : String → Option ByteRange → State → BlobResult GetResult
  pub delete : String → State → BlobResult (Unit {0}) × State
  pub list : Option String → Option ℕ → State → BlobResult (List Info)
  pub supports_range : Bool

-- A key of a blob may depend on the time, in seconds, as that of the default strategy does.
pub record BlobKeyStrategy : Type 0 where
  pub object_key : ℕ → String → String → Dict String String → String
  pub staging_key : String → String → ℕ → String

-- What an upload relies on in a store that works: a stream without an error is stored under its key and
-- nowhere else, with a name or without, and can be read again; one with an error is refused. A deletion
-- touches no other key.
pub record IsReliable (b : BlobStore) : Type 0 where
  pub contents : b.State → String → Option (List ℕ)
  pub stored : List ℕ → PutResult
  pub stored_size : (bytes : List ℕ) → (stored bytes).size_bytes ≡ length bytes
  pub put_ok :
      (key : String) (kind : Option String) (s : ByteStream) (st : b.State) (bytes : List ℕ)
      → bytes_of s ≡ ok bytes
      → (b.put key kind s st).0 ≡ ok (stored bytes)
  pub put_contents :
      (key j : String) (kind : Option String) (s : ByteStream) (st : b.State) (bytes : List ℕ)
      → bytes_of s ≡ ok bytes
      → contents (b.put key kind s st).1 j ≡ (if key == j then some bytes else contents st j)
  pub named_ok :
      (key : String) (kind name : Option String) (s : ByteStream) (st : b.State) (bytes : List ℕ)
      → bytes_of s ≡ ok bytes
      → (b.put_with_metadata key kind name s st).0 ≡ ok (stored bytes)
  pub named_contents :
      (key j : String) (kind name : Option String) (s : ByteStream) (st : b.State) (bytes : List ℕ)
      → bytes_of s ≡ ok bytes
      → contents (b.put_with_metadata key kind name s st).1 j
        ≡ (if key == j then some bytes else contents st j)
  pub put_refused :
      (key : String) (kind : Option String) (s : ByteStream) (st : b.State) (e : String)
      → bytes_of s ≡ err e
      → (d : BlobError) × ((b.put key kind s st).0 ≡ err d)
  pub get_ok :
      (key : String) (st : b.State) (bytes : List ℕ)
      → contents st key ≡ some bytes
      → (g : GetResult) × (b.get key none st ≡ ok g) × (bytes_of g.stream ≡ ok bytes)
  pub get_missing :
      (key : String) (range : Option ByteRange) (st : b.State)
      → contents st key ≡ none
      → (e : BlobError) × (b.get key range st ≡ err e)
  pub delete_others :
      (key j : String) (st : b.State) → key ≢ j → contents (b.delete key st).1 j ≡ contents st j
