-- ===== src/Blob/Staging.antt =====
-- The staged parts of an upload, in dog-blob/src/coordinator.rs: the tests of their numbers and sizes, the stream that joins
-- them, and their deletion. `show` displays a number.
pub mod Joined
use Prim.Native.String.{◌++◌ as text_append}
use dogrs.Base.{
  ℕ, zero, suc, String, ◌||◌, Option, none, some, List, [], ◌∷◌, ◌++◌, map, eqb, ltb, if◌then◌else◌,
}
use dogrs.Base.Results.{Result, ok, err}
use dogrs.Blob.Parts
use dogrs.Blob.Parts.{PartMap}
use dogrs.Blob.Store.{BlobStore, BlobKeyStrategy, ByteStream}
use dogrs.Blob.Types.{BlobError, PartReceipt, UploadRules, display}

-- What a coordinator is built with, but for the sessions.
pub record UploadSetup : Type 1 where
  pub blobs : BlobStore
  pub keys : BlobKeyStrategy
  pub rules : UploadRules
  pub show : ℕ → String

-- `from..from + count`.
unfoldable pub numbers : ℕ → ℕ → List ℕ
numbers from zero = []
numbers from (suc count) = from ∷ numbers (suc from) count

-- `1..=total_parts`.
abbrev pub part_numbers : ℕ → List ℕ
part_numbers total_parts = numbers 1 total_parts

-- The first number that has no part.
unfoldable pub missing_part : PartMap PartReceipt → List ℕ → Option ℕ
missing_part parts [] = none
missing_part parts (p ∷ ps) =
    let rest = missing_part parts ps in elim (Parts.get parts p) [ none ↦ some p | some _ ↦ rest ]

module _ (c : UploadSetup) where
  -- A part of a size that the rules forbid, in the order of the numbers.
  unfoldable pub size_error : ℕ → PartMap PartReceipt → Option BlobError
  size_error total_parts [] = none
  size_error total_parts ((p, part) ∷ parts) =
      let rest = size_error total_parts parts in
      if ltb p total_parts
      then (if eqb part.size_bytes c.rules.part_size
          then rest
          else some (
              BlobError.invalid (
                text_append "Part " (
                  text_append (c.show p) (
                    text_append " has size " (
                      text_append (c.show part.size_bytes)
                        (text_append " but expected " (c.show c.rules.part_size))))))))
      else (if eqb part.size_bytes 0 || ltb c.rules.part_size part.size_bytes
          then some (
              BlobError.invalid (
                text_append "Final part " (
                  text_append (c.show p)
                    (text_append " has invalid size " (c.show part.size_bytes)))))
          else rest)

  -- The parts are read in turn; the stream ends at the first part that cannot be read.
  unfoldable pub concat_part_streams : List String → c.blobs.State → ByteStream
  concat_part_streams [] st = []
  concat_part_streams (key ∷ part_keys) st = elim (c.blobs.get key none st) [
    | ok found ↦ found.stream ++ concat_part_streams part_keys st
    | err e ↦
        err (text_append "Failed to read part " (text_append key (text_append ": " (display e))))
        ∷ []
  ]

  -- Errors are ignored.
  unfoldable pub delete_all : List String → c.blobs.State → c.blobs.State
  delete_all [] st = st
  delete_all (key ∷ ks) st = delete_all ks (c.blobs.delete key st).1

  unfoldable pub cleanup_staged_parts : String → String → ℕ → c.blobs.State → c.blobs.State
  cleanup_staged_parts tenant_id upload_id part_count st =
      delete_all (map (c.keys.staging_key tenant_id upload_id) (part_numbers part_count)) st
