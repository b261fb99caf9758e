-- ===== src/Blob/Examples.antt =====
-- The theorems on uploads over a store that is a map in memory.
pub mod Files
use Prim.Native.Char.{code}
use dogrs.Base.{
  ℕ, zero, suc, ◌≡◌, ◌≢◌, refl, sym, ap, ◌∙◌, String, true, Option, none, some, List, [], ◌∷◌,
  arith, length, string_eq, here, str_beq_ne, subst, Bool-cases, inl, inr, eqb, eqb_iff,
}
use mathlib.Core.List.{append-nil}
use dogrs.Base.Results.{Result, ok, err}
use dogrs.Blob.Staging.{UploadSetup, numbers, size_error}
use dogrs.Blob.Staging.Joined.{PartIs, with_part, joined}
use dogrs.Blob.Coordinator.{
  Readings, DefaultUploadCoordinator, part_receipt, accept_part, set_total_parts, complete,
  inactive,
}
use dogrs.Blob.Coordinator.Assembly.{IsStaged, accept_part-IsStaged, complete-joined}
use dogrs.Blob.Coordinator.Outcomes.{closed-refused, foreign_part-breaks}
use dogrs.Blob.Parts
use dogrs.Blob.Parts.{PartMap}
use dogrs.Blob.Store.{
  BlobStore, BlobKeyStrategy, ByteStream, PutResult, GetResult, IsReliable, bytes_of,
}
use dogrs.Blob.Types.{
  BlobCtx, BlobError, BlobReceipt, BlobResult, PartReceipt, UploadSession, UploadStatus,
}
use dogrs.Dict
use dogrs.Dict.{Dict, get-put, get-put_self, get-remove, get-empty}

abbrev pub result : List ℕ → PutResult
result bytes = record { etag = none; size_bytes = length bytes; checksum = none }

abbrev put_bytes :
    String
    → Result String (List ℕ)
    → Dict String (List ℕ)
    → BlobResult PutResult × Dict String (List ℕ)
put_bytes key (ok bytes) st = (ok (result bytes), Dict.put st key bytes)
put_bytes key (err e) st = (err (BlobError.io e), st)

abbrev whole : List ℕ → GetResult
whole bytes = record {
  stream = ok bytes ∷ [];
  size_bytes = length bytes;
  content_type = none;
  etag = none;
  resolved_range = none;
}

abbrev read : Option (List ℕ) → BlobResult GetResult
read none = err (BlobError.not_found "missing")
read (some bytes) = ok (whole bytes)

abbrev pub blobs : BlobStore
blobs = record {
  State = Dict String (List ℕ);
  Info = String;
  put = λ key kind s st. put_bytes key (bytes_of s) st;
  put_with_metadata = λ key kind name s st. put_bytes key (bytes_of s) st;
  get = λ key range st. read (Dict.get st key);
  list = λ prefix limit st. ok [];
  delete = λ key st. (ok tt, Dict.remove st key);
  supports_range = true;
}

pub one_chunk : (bytes : List ℕ) → bytes_of (ok bytes ∷ []) ≡ ok bytes
unfolding bytes_of
one_chunk bytes = ap ok (append-nil bytes)

abbrev pub reliable : IsReliable blobs
reliable = record {
  contents = Dict.get;
  stored = result;
  stored_size = λ bytes. refl;
  put_ok = λ key kind s st bytes e. ap (λ x. (put_bytes key x st).0) e;
  put_contents = λ key j kind s st bytes e.
      ap (λ x. Dict.get (put_bytes key x st).1 j) e ∙ get-put st key j bytes;
  named_ok = λ key kind name s st bytes e. ap (λ x. (put_bytes key x st).0) e;
  named_contents = λ key j kind name s st bytes e.
      ap (λ x. Dict.get (put_bytes key x st).1 j) e ∙ get-put st key j bytes;
  put_refused = λ key kind s st d e. (BlobError.io d, ap (λ x. (put_bytes key x st).0) e);
  get_ok = λ key st bytes e. (whole bytes, ap read e, one_chunk bytes);
  get_missing = λ key range st e. (_, ap read e);
  delete_others = λ key j st apart. get-remove st key j ∙ rw (str_beq_ne key j apart) refl;
}

abbrev pub marks : ℕ → String
marks zero = String.[]
marks (suc n) = String.◌∷◌ "x" (marks n)

abbrev prefixed : String → ℕ → String
prefixed String.[] n = marks n
prefixed (String.◌∷◌ c s) n = String.◌∷◌ c (prefixed s n)

abbrev keys : BlobKeyStrategy
keys = record {
  object_key = λ now tenant blob hints. blob;
  staging_key = λ tenant upload p. prefixed tenant p;
}

abbrev pub setup : UploadSetup
setup = record {
  blobs = blobs;
  keys = keys;
  rules = record {
    part_size = 4;
    max_parts = 10;
    require_fixed_part_size = true;
    allow_out_of_order = true;
  };
  show = marks;
}

abbrev pub owner : BlobCtx
owner = record { tenant_id = "acme/"; actor_id = none; request_id = "r1" }

abbrev stranger : BlobCtx
stranger = record { tenant_id = "zeta/"; actor_id = none; request_id = "r2" }

abbrev key : ℕ → String
key p = prefixed "acme/" p

-- The length of a text, and its first character.
abbrev pub size : String → ℕ
size String.[] = 0
size (String.◌∷◌ x s) = suc (size s)

abbrev pub first : String → ℕ
first String.[] = 0
first (String.◌∷◌ x s) = code x

pub size-marks : (n : ℕ) → size (marks n) ≡ n
size-marks zero = refl
size-marks (suc n) = ap suc (size-marks n)

key-injective : (m n : ℕ) → key m ≡ key n → m ≡ n
key-injective m n e =
    let sizes : suc (suc (suc (suc (suc (size (marks m))))))
        ≡ suc (suc (suc (suc (suc (size (marks n)))))) =
      ap size e in
    omega (arith, sizes, size-marks m, size-marks n)

key-final : (p : ℕ) → key p ≢ "song"
key-final p e = let letters : b'a' ≡ b's' = ap first e in ground (arith, letters)

abbrev session : PartMap PartReceipt → UploadStatus → UploadSession String
session parts status = record {
  upload_id = "u";
  blob_id = "song";
  tenant_id = "acme/";
  actor_id = none;
  created_at = 100;
  updated_at = 100;
  total_parts = some 2;
  status = status;
  content_type = "audio/mpeg";
  filename = some "song.mp3";
  size_hint = none;
  attributes = "{}";
  progress = record { parts = parts; received_bytes = 0 };
}

abbrev fresh : DefaultUploadCoordinator setup String
fresh = record {
  store = Dict.empty;
  sessions = Dict.put Dict.empty "u" (session [] UploadStatus.active);
}

abbrev nothing : ℕ → Option (List ℕ)
nothing p = none

fresh-IsStaged : IsStaged setup reliable "acme/" "u" nothing fresh
unfolding Parts.get
fresh-IsStaged = record {
  session = session [] UploadStatus.active;
  found = get-put_self Dict.empty "u" _;
  is_open = refl;
  parts = λ p. tt;
}

abbrev body : ByteStream
body = ok (1 ∷ 2 ∷ []) ∷ ok (3 ∷ 4 ∷ []) ∷ []

accept_part-IsStaged_example :
    ((accept_part setup owner "u" 1 body 101 fresh).0
      ≡ ok (part_receipt 1 101 (result (1 ∷ 2 ∷ 3 ∷ 4 ∷ []))))
    × IsStaged setup reliable "acme/" "u"
        (with_part nothing 1 (1 ∷ 2 ∷ 3 ∷ 4 ∷ []))
        (accept_part setup owner "u" 1 body 101 fresh).1
unfolding bytes_of
accept_part-IsStaged_example =
    accept_part-IsStaged setup reliable owner "u" nothing 1 body (1 ∷ 2 ∷ 3 ∷ 4 ∷ []) 101 fresh
      fresh-IsStaged key-injective (omega arith) (omega arith) refl

abbrev part : ℕ → ℕ → PartReceipt
part p n = record {
  part_number = p;
  size_bytes = n;
  etag = none;
  checksum = none;
  uploaded_at = 101;
}

-- Part 1 has four bytes, and part 2 has one.
abbrev uploaded : DefaultUploadCoordinator setup String
uploaded = record {
  store = Dict.put (Dict.put Dict.empty (key 2) (5 ∷ [])) (key 1) (1 ∷ 2 ∷ 3 ∷ 4 ∷ []);
  sessions =
      Dict.put Dict.empty "u" (session ((1, part 1 4) ∷ (2, part 2 1) ∷ []) UploadStatus.active);
}

abbrev both : ℕ → Option (List ℕ)
both = with_part (with_part nothing 2 (5 ∷ [])) 1 (1 ∷ 2 ∷ 3 ∷ 4 ∷ [])

abbrev PartAt : ℕ → Type 0
PartAt p =
    PartIs (Parts.get ((1, part 1 4) ∷ (2, part 2 1) ∷ []) p) (both p)
      (Dict.get uploaded.store (key p))

first_part : PartAt 1
unfolding Parts.get
first_part = (get-put_self (Dict.put Dict.empty (key 2) (5 ∷ [])) (key 1) _, refl)

second_part : PartAt 2
unfolding Parts.get
second_part = (
  get-put (Dict.put Dict.empty (key 2) (5 ∷ [])) (key 1) (key 2) _
      ∙ rw (str_beq_ne (key 1) (key 2) (λ e. ground (arith, key-injective 1 2 e)))
          (get-put_self Dict.empty (key 2) _),
  refl,
)

uploaded-parts : (p : ℕ) → PartAt p
unfolding Parts.get
uploaded-parts p = elim (Bool-cases (eqb 1 p)) [
  | inl one ↦ subst PartAt ((eqb_iff 1 p).0 one) first_part
  | inr other ↦ elim (Bool-cases (eqb 2 p)) [
    | inl two ↦ subst PartAt ((eqb_iff 2 p).0 two) second_part
    | inr neither ↦ rw (other, neither) tt
  ]
]

abbrev staged : IsStaged setup reliable "acme/" "u" both uploaded
staged = record {
  session = session ((1, part 1 4) ∷ (2, part 2 1) ∷ []) UploadStatus.active;
  found = get-put_self Dict.empty "u" _;
  is_open = refl;
  parts = uploaded-parts;
}

abbrev times : Readings
times = record { keyed = 200; marked = 201; issued = 202 }

complete-joined_example :
    ((r : BlobReceipt String) × ((complete setup owner "u" times uploaded).0 ≡ ok r)
      × (r.key ≡ "song")
      × (r.size_bytes ≡ 5))
    × (Dict.get (complete setup owner "u" times uploaded).1.store "song"
        ≡ some (1 ∷ 2 ∷ 3 ∷ 4 ∷ 5 ∷ []))
    × (Dict.get (complete setup owner "u" times uploaded).1.sessions "u"
        ≡ some (session ((1, part 1 4) ∷ (2, part 2 1) ∷ []) (UploadStatus.completed 201)))
unfolding numbers joined size_error
complete-joined_example =
    complete-joined setup reliable owner "u" both 2 times uploaded staged refl
      ((_, refl), ((_, refl), tt)) refl key-final

abbrev closed : DefaultUploadCoordinator setup String
closed = record {
  store = Dict.put Dict.empty "song" (7 ∷ []);
  sessions = Dict.put Dict.empty "u" (session ((1, part 1 4) ∷ []) (UploadStatus.completed 150));
}

strange : key 1 ≢ prefixed "zeta/" 1
strange e = let letters : b'a' ≡ b'z' = ap first e in ground (arith, letters)

foreign_part-breaks_example :
    ((accept_part setup stranger "u" 1 body 101 fresh).0
      ≡ ok (part_receipt 1 101 (result (1 ∷ 2 ∷ 3 ∷ 4 ∷ []))))
    × ((e : BlobError) × ((complete setup owner "u" times
            (accept_part setup stranger "u" 1 body 101 fresh).1).0
          ≡ err e))
unfolding bytes_of numbers
foreign_part-breaks_example =
    foreign_part-breaks setup reliable stranger owner "u" 1 2 101 times body (1 ∷ 2 ∷ 3 ∷ 4 ∷ [])
      fresh (session [] UploadStatus.active) (get-put_self Dict.empty "u" _) refl refl (omega arith)
      (omega arith) (here refl) refl (λ e. strange (sym e)) (get-empty (key 1))
