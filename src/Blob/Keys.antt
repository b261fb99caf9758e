-- ===== src/Blob/Keys.antt =====
-- `DefaultKeyStrategy` of dog-blob/src/store.rs. The calendar, and the display of numbers with leading zeros, are those of
-- the libraries.
use Prim.Native.String.{◌++◌ as text_append}
use dogrs.Base.{ℕ, String}
use dogrs.Blob.Store.{BlobKeyStrategy}

-- `year` has four digits at least and `month` two, of a time in seconds; `pad6` displays a number with six.
pub record Calendar : Type 0 where
  pub year : ℕ → String
  pub month : ℕ → String
  pub pad6 : ℕ → String

-- The texts with a slash between them.
abbrev slashed : String → String → String
slashed s t = text_append s (text_append "/" t)

abbrev pub default_key_strategy : Calendar → BlobKeyStrategy
default_key_strategy cal = record {
  object_key = λ now tenant_id blob_id hints.
      slashed tenant_id (slashed (cal.year now) (slashed (cal.month now) blob_id));
  staging_key = λ tenant_id upload_id part_number.
      slashed "__uploads"
        (slashed tenant_id (slashed upload_id (text_append "part-" (cal.pad6 part_number))));
}
