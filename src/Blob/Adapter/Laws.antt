-- ===== src/Blob/Adapter/Laws.antt =====
-- What is put can be opened, as long as the key stays the same; and the parts that are planned cover the blob.
use dogrs.Base.{
  ℕ, ◌≡◌, ◌≢◌, refl, ◌∙◌, String, false, Option, none, some, List, arith, length, if◌then◌else◌,
  ◌==◌, string_eq, str_beq_refl, str_beq_ne,
}
use dogrs.Base.Results.{ok, err}
use dogrs.Blob.Adapter.{
  BlobState, BlobPut, OpenedBlob, above, put_body, put_receipt, put, open_blob,
}
use dogrs.Blob.Store.{ByteStream, ByteRange, bytes_of, IsReliable}
use dogrs.Blob.Types.{BlobError, BlobCtx, BlobReceipt}
use dogrs.Dict

module _ {Json : Type 0} (a : BlobState Json) (h : IsReliable a.uploads.blobs) where
  put_body-ok :
      (key : String) (p : BlobPut Json) (body : ByteStream) (bytes : List ℕ)
      (st : a.uploads.blobs.State)
      → bytes_of body ≡ ok bytes
      → (put_body a key p body st).0 ≡ ok (h.stored bytes)
  unfolding put_body
  put_body-ok key p body bytes st clean = grind (
    arith,
    h.put_ok key p.content_type body st bytes clean,
    λ (n : Option String). h.named_ok key p.content_type n body st bytes clean,
  )

  pub put_body-contents :
      (key j : String) (p : BlobPut Json) (body : ByteStream) (bytes : List ℕ)
      (st : a.uploads.blobs.State)
      → bytes_of body ≡ ok bytes
      → h.contents (put_body a key p body st).1 j
        ≡ (if key == j then some bytes else h.contents st j)
  unfolding put_body
  put_body-contents key j p body bytes st clean = grind (
    arith,
    h.put_contents key j p.content_type body st bytes clean,
    λ (n : Option String). h.named_contents key j p.content_type n body st bytes clean,
  )

  put_body-others :
      (key j : String) (p : BlobPut Json) (body : ByteStream) (bytes : List ℕ)
      (st : a.uploads.blobs.State)
      → bytes_of body ≡ ok bytes
      → key ≢ j
      → h.contents (put_body a key p body st).1 j ≡ h.contents st j
  put_body-others key j p body bytes st clean apart =
      put_body-contents key j p body bytes st clean ∙ rw (str_beq_ne key j apart) refl

  pub puts :
      (ctx : BlobCtx) (p : BlobPut Json) (body : ByteStream) (bytes : List ℕ) (id : String)
      (now issued : ℕ) (st : a.uploads.blobs.State)
      → bytes_of body ≡ ok bytes
      → above p.size_hint a.max_blob_bytes ≡ false
      → put a ctx p body id now issued st ≡ (
        ok (
            put_receipt a id
              (a.uploads.keys.object_key now ctx.tenant_id id p.key_hints)
              p
              issued
              (h.stored bytes)),
        (put_body a (a.uploads.keys.object_key now ctx.tenant_id id p.key_hints) p body st).1,
      )
  unfolding put
  puts ctx p body bytes id now issued st clean small = ground (
    arith,
    small,
    put_body-ok (a.uploads.keys.object_key now ctx.tenant_id id p.key_hints) p body bytes st clean,
  )

  opens :
      (ctx : BlobCtx) (id : String) (now issued : ℕ) (bytes : List ℕ) (st : a.uploads.blobs.State)
      → h.contents st (a.uploads.keys.object_key now ctx.tenant_id id Dict.empty) ≡ some bytes
      → (o : OpenedBlob Json) × (open_blob a ctx id none now issued st ≡ ok o)
        × (bytes_of o.stream ≡ ok bytes)
  unfolding open_blob
  opens ctx id now issued bytes st held =
      let (g, got, clean) = h.get_ok _ st bytes held in rw (got, open_blob) (_, refl, clean)

  -- Over a reliable store, let a put be given a stream without error and a size hint that is not
  -- above the limit, or none. It succeeds; and if the key that is made later, without hints, is
  -- the key it was put under, then opening it at that time, with no other call in between, gives
  -- a stream of the same bytes, whose number is in the receipt.
  pub put-open_blob :
      (ctx : BlobCtx) (p : BlobPut Json) (body : ByteStream) (bytes : List ℕ) (id : String)
      (now issued later read : ℕ) (st : a.uploads.blobs.State)
      → bytes_of body ≡ ok bytes
      → above p.size_hint a.max_blob_bytes ≡ false
      → a.uploads.keys.object_key later ctx.tenant_id id Dict.empty
        ≡ a.uploads.keys.object_key now ctx.tenant_id id p.key_hints
      → ((r : BlobReceipt Json) × ((put a ctx p body id now issued st).0 ≡ ok r)
          × (r.size_bytes ≡ length bytes)
          × (r.id ≡ id))
        × ((o : OpenedBlob Json) × (open_blob a ctx id none later read
                (put a ctx p body id now issued st).1
              ≡ ok o)
            × (bytes_of o.stream ≡ ok bytes))
  put-open_blob ctx p body bytes id now issued later read st clean small same =
      let done = puts ctx p body bytes id now issued st clean small in
      let held =
        put_body-contents _ (a.uploads.keys.object_key later ctx.tenant_id id Dict.empty) p body
          bytes st clean in
      rw done (
        (_, refl, h.stored_size bytes, refl),
        opens ctx id later read bytes _ (
            held
            ∙ rw (same, str_beq_refl (a.uploads.keys.object_key now ctx.tenant_id id p.key_hints))
                refl),
      )

  -- Over a reliable store, let a put be given a stream without error and a size hint that is not
  -- above the limit, or none. It puts the blob under the key of the time of the call and of the
  -- hints, and the blob is opened under the key of the later time without hints. If these keys
  -- differ, and nothing is stored under the second, then the put succeeds and opening the blob at
  -- the later time, with no other call in between, fails.
  pub put-open_lost :
      (ctx : BlobCtx) (p : BlobPut Json) (body : ByteStream) (bytes : List ℕ) (id : String)
      (range : Option ByteRange) (now issued later read : ℕ) (st : a.uploads.blobs.State)
      → bytes_of body ≡ ok bytes
      → above p.size_hint a.max_blob_bytes ≡ false
      → a.uploads.keys.object_key now ctx.tenant_id id p.key_hints
        ≢ a.uploads.keys.object_key later ctx.tenant_id id Dict.empty
      → h.contents st (a.uploads.keys.object_key later ctx.tenant_id id Dict.empty) ≡ none
      → ((r : BlobReceipt Json) × ((put a ctx p body id now issued st).0 ≡ ok r))
        × ((e : BlobError) × (open_blob a ctx id range later read
                (put a ctx p body id now issued st).1
              ≡ err e))
  unfolding open_blob
  put-open_lost ctx p body bytes id range now issued later read st clean small differ absent =
      let done = puts ctx p body bytes id now issued st clean small in
      let (e, got) =
        h.get_missing _ range _ (put_body-others _ _ p body bytes st clean differ ∙ absent) in
      rw done ((_, refl), rw (got, open_blob) (e, refl))
