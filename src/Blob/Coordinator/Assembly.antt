-- ===== src/Blob/Coordinator/Assembly.antt =====
-- What an upload in parts does, over a store that works: an upload is a map from the numbers of its parts to their
-- bytes, and completing it stores their concatenation.
use dogrs.Base.{
  ℕ, ◌≤◌, ◌≡◌, ◌≢◌, refl, sym, ap, ◌∙◌, String, Option, none, some, List, [], ◌∷◌, map, arith, eqb,
  length, string_eq, str_beq_iff, str_beq_ne, str_beq_refl, Bool-cases, inl, inr, eqb_iff,
}
use dogrs.Base.Results.{ok}
use dogrs.Blob.Coordinator.{
  DefaultUploadCoordinator, require_active, part_receipt, stage_part, accept_part, total_of,
  size_check, receipt_of, assemble, complete, Readings,
}
use dogrs.Blob.Parts
use dogrs.Blob.Parts.{PartMap, get-insert}
use dogrs.Blob.Sessions
use dogrs.Blob.Sessions.{add_part, set_status}
use dogrs.Blob.Staging.{
  UploadSetup, part_numbers, missing_part, concat_part_streams, cleanup_staged_parts,
}
use dogrs.Blob.Staging.Joined.{
  PartIs, with_part, joined, joined-some, IsWhole, recorded, followed, bytes_of-append,
  delete_all-contents,
}
use dogrs.Blob.Store.{ByteStream, bytes_of, IsReliable}
use dogrs.Blob.Types.{BlobCtx, UploadStatus, UploadSession, BlobReceipt}
use dogrs.Dict
use dogrs.Dict.{get-put_self}

module _ {Json : Type 0} (c : UploadSetup) (h : IsReliable c.blobs) where
  -- The session is active, and its parts are those of `f`, which are staged under the tenant's keys.
  pub record IsStaged (tenant_id upload_id : String) (f : ℕ → Option (List ℕ))
      (s : DefaultUploadCoordinator c Json) : Type 0 where
    pub session : UploadSession Json
    pub found : Dict.get s.sessions upload_id ≡ some session
    pub is_open : session.status ≡ UploadStatus.active
    pub parts :
        (p : ℕ)
        → PartIs
            (Parts.get session.progress.parts p)
            (f p)
            (h.contents s.store (c.keys.staging_key tenant_id upload_id p))

  pub accepted :
      (ctx : BlobCtx) (upload_id : String) (p : ℕ) (body : ByteStream) (bytes : List ℕ) (now : ℕ)
      (s : DefaultUploadCoordinator c Json) (session : UploadSession Json)
      → Dict.get s.sessions upload_id ≡ some session
      → session.status ≡ UploadStatus.active
      → 1 ≤ p
      → p ≤ c.rules.max_parts
      → bytes_of body ≡ ok bytes
      → accept_part c ctx upload_id p body now s ≡ (
        ok (part_receipt p now (h.stored bytes)),
        record {
          store =
              (c.blobs.put
                (c.keys.staging_key ctx.tenant_id upload_id p)
                (some "application/octet-stream")
                body
                s.store).1;
          sessions =
              Dict.put s.sessions upload_id
                (add_part (part_receipt p now (h.stored bytes)) session);
        },
      )
  unfolding accept_part require_active stage_part Sessions.get Sessions.record_part
      Sessions.with_session_mut
  accepted ctx upload_id p body bytes now s session found active low high clean = ground (
    arith,
    found,
    active,
    low,
    high,
    h.put_ok (c.keys.staging_key ctx.tenant_id upload_id p) (some "application/octet-stream") body
        s.store bytes clean,
  )

  part-accepted :
      (ctx : BlobCtx) (upload_id : String) (f : ℕ → Option (List ℕ)) (p q : ℕ) (body : ByteStream)
      (bytes : List ℕ) (now : ℕ) (s : DefaultUploadCoordinator c Json)
      (v : IsStaged ctx.tenant_id upload_id f s)
      → ((m n : ℕ)
          → c.keys.staging_key ctx.tenant_id upload_id m
            ≡ c.keys.staging_key ctx.tenant_id upload_id n
          → m ≡ n)
      → bytes_of body ≡ ok bytes
      → PartIs
          (Parts.get
            (Parts.insert v.session.progress.parts p (part_receipt p now (h.stored bytes)))
            q)
          (with_part f p bytes q)
          (h.contents
            (c.blobs.put
              (c.keys.staging_key ctx.tenant_id upload_id p)
              (some "application/octet-stream")
              body
              s.store).1
            (c.keys.staging_key ctx.tenant_id upload_id q))
  part-accepted ctx upload_id f p q body bytes now s v apart clean =
      let key = c.keys.staging_key ctx.tenant_id upload_id in
      rw
        (
          get-insert v.session.progress.parts p q (part_receipt p now (h.stored bytes)),
          h.put_contents (key p) (key q) (some "application/octet-stream") body s.store bytes clean,
        )
        (elim (Bool-cases (eqb p q)) [
          | inl same ↦
              rw (same, (str_beq_iff (key p) (key q)).1 (ap key ((eqb_iff p q).0 same)))
                (refl, h.stored_size bytes)
          | inr other ↦
              rw (other, str_beq_ne (key p) (key q) (λ e. ground (arith, apart p q e, other)))
                (v.parts q)
        ])

  -- Let an active session's recorded parts be those of the upload `f`, staged under the tenant's keys, in a store
  -- that works. If the tenant hands in a part of an allowed number with a body without error, and the
  -- staging keys of the upload's parts are different, then the answer is the part's receipt, and
  -- the same holds of the upload with this part in place of any earlier one of the number.
  pub accept_part-IsStaged :
      (ctx : BlobCtx) (upload_id : String) (f : ℕ → Option (List ℕ)) (p : ℕ) (body : ByteStream)
      (bytes : List ℕ) (now : ℕ) (s : DefaultUploadCoordinator c Json)
      → IsStaged ctx.tenant_id upload_id f s
      → ((m n : ℕ)
          → c.keys.staging_key ctx.tenant_id upload_id m
            ≡ c.keys.staging_key ctx.tenant_id upload_id n
          → m ≡ n)
      → 1 ≤ p
      → p ≤ c.rules.max_parts
      → bytes_of body ≡ ok bytes
      → ((accept_part c ctx upload_id p body now s).0 ≡ ok (part_receipt p now (h.stored bytes)))
        × IsStaged ctx.tenant_id upload_id
            (with_part f p bytes)
            (accept_part c ctx upload_id p body now s).1
  accept_part-IsStaged ctx upload_id f p body bytes now s v apart low high clean =
      rw (accepted ctx upload_id p body bytes now s v.session v.found v.is_open low high clean) (
        refl,
        record {
          session = add_part (part_receipt p now (h.stored bytes)) v.session;
          found = get-put_self s.sessions upload_id _;
          is_open = v.is_open;
          parts = λ q. part-accepted ctx upload_id f p q body bytes now s v apart clean;
        },
      )

  module _ (tenant_id upload_id : String) (f : ℕ → Option (List ℕ)) where
    missing-none :
        (s : DefaultUploadCoordinator c Json) (v : IsStaged tenant_id upload_id f s) (ps : List ℕ)
        → IsWhole f ps
        → missing_part v.session.progress.parts ps ≡ none
    unfolding missing_part
    missing-none s v [] w = refl
    missing-none s v (p ∷ ps) w =
        let (r, got, there) = recorded _ _ _ w.0.0 (v.parts p) w.0.1 in
        rw (got, missing_part) (missing-none s v ps w.1)

    concat-joined :
        (s : DefaultUploadCoordinator c Json) (v : IsStaged tenant_id upload_id f s) (ps : List ℕ)
        → IsWhole f ps
        → bytes_of (concat_part_streams c (map (c.keys.staging_key tenant_id upload_id) ps) s.store)
          ≡ ok (joined f ps)
    unfolding concat_part_streams joined bytes_of
    concat-joined s v [] w = refl
    concat-joined s v (p ∷ ps) w =
        let (r, got, there) = recorded _ _ _ w.0.0 (v.parts p) w.0.1 in
        let (stream, read, clean) =
          h.get_ok (c.keys.staging_key tenant_id upload_id p) s.store w.0.0 there in
        rw read (
          bytes_of-append stream.stream _ (joined f ps) (concat-joined s v ps w.1)
          ∙ ap (λ x. followed x (joined f ps)) clean
          ∙ ap ok (sym (joined-some f p ps w.0.0 w.0.1)))

  -- What `assemble` leaves.
  assembled :
      (ctx : BlobCtx) (upload_id : String) (session : UploadSession Json) (n : ℕ) (now : Readings)
      (bytes : List ℕ) (s : DefaultUploadCoordinator c Json)
      → Dict.get s.sessions upload_id ≡ some session
      → bytes_of (
          concat_part_streams c
            (map (c.keys.staging_key ctx.tenant_id upload_id) (part_numbers n))
            s.store)
        ≡ ok bytes
      → assemble c ctx upload_id session n now s ≡ (
        ok (
            receipt_of c upload_id session
              (c.keys.object_key now.keyed ctx.tenant_id session.blob_id Dict.empty)
              n
              now.issued
              (h.stored bytes)),
        record {
          store =
              cleanup_staged_parts c ctx.tenant_id upload_id n
                (c.blobs.put
                  (c.keys.object_key now.keyed ctx.tenant_id session.blob_id Dict.empty)
                  (some session.content_type)
                  (concat_part_streams c
                    (map (c.keys.staging_key ctx.tenant_id upload_id) (part_numbers n))
                    s.store)
                  s.store).1;
          sessions =
              Dict.put s.sessions upload_id
                (set_status (UploadStatus.completed now.marked) session);
        },
      )
  unfolding assemble Sessions.mark_completed Sessions.with_session_mut
  assembled ctx upload_id session n now bytes s found clean = ground (
    arith,
    found,
    h.put_ok (c.keys.object_key now.keyed ctx.tenant_id session.blob_id Dict.empty)
        (some session.content_type) _ s.store bytes clean,
  )

  reaches :
      (ctx : BlobCtx) (upload_id : String) (session : UploadSession Json) (n : ℕ) (now : Readings)
      (s : DefaultUploadCoordinator c Json)
      → Dict.get s.sessions upload_id ≡ some session
      → session.status ≡ UploadStatus.active
      → total_of session ≡ some n
      → missing_part session.progress.parts (part_numbers n) ≡ none
      → size_check c session n ≡ none
      → complete c ctx upload_id now s ≡ assemble c ctx upload_id session n now s
  unfolding complete require_active Sessions.get
  reaches ctx upload_id session n now s found active total whole sized =
      ground (arith, found, active, total, whole, sized)

  -- Completing an upload stores the concatenation of its parts, in the order of their numbers. Let an active
  -- session's recorded parts be those of the upload `f`, staged under the tenant's keys, in a store that
  -- works. If its total is n, each number from 1 to n has a part, the sizes are as the rules ask
  -- and no staging key is the final key, then the call succeeds with a receipt of the concatenation's
  -- size, the final key holds the concatenation, and the session is marked as completed, but
  -- otherwise unchanged.
  pub complete-joined :
      (ctx : BlobCtx) (upload_id : String) (f : ℕ → Option (List ℕ)) (n : ℕ) (now : Readings)
      (s : DefaultUploadCoordinator c Json) (v : IsStaged ctx.tenant_id upload_id f s)
      → total_of v.session ≡ some n
      → IsWhole f (part_numbers n)
      → size_check c v.session n ≡ none
      → ((p : ℕ)
          → c.keys.staging_key ctx.tenant_id upload_id p
            ≢ c.keys.object_key now.keyed ctx.tenant_id v.session.blob_id Dict.empty)
      → ((r : BlobReceipt Json) × ((complete c ctx upload_id now s).0 ≡ ok r)
          × (r.key ≡ c.keys.object_key now.keyed ctx.tenant_id v.session.blob_id Dict.empty)
          × (r.size_bytes ≡ length (joined f (part_numbers n))))
        × (h.contents
              (complete c ctx upload_id now s).1.store
              (c.keys.object_key now.keyed ctx.tenant_id v.session.blob_id Dict.empty)
            ≡ some (joined f (part_numbers n)))
        × (Dict.get (complete c ctx upload_id now s).1.sessions upload_id
            ≡ some (set_status (UploadStatus.completed now.marked) v.session))
  unfolding cleanup_staged_parts
  complete-joined ctx upload_id f n now s v total whole sized apart =
      let key = c.keys.staging_key ctx.tenant_id upload_id in
      let final = c.keys.object_key now.keyed ctx.tenant_id v.session.blob_id Dict.empty in
      let clean = concat-joined ctx.tenant_id upload_id f s v (part_numbers n) whole in
      rw
        (
          reaches ctx upload_id v.session n now s v.found v.is_open total
              (missing-none ctx.tenant_id upload_id f s v (part_numbers n) whole) sized,
          assembled ctx upload_id v.session n now _ s v.found clean,
        )
        (
          (
            receipt_of c upload_id v.session final n now.issued
                (h.stored (joined f (part_numbers n))),
            refl,
            refl,
            h.stored_size _,
          ),
          delete_all-contents c h key final (part_numbers n) _ apart
              ∙ h.put_contents final final (some v.session.content_type) _ s.store _ clean
              ∙ rw (str_beq_refl final) refl,
          get-put_self s.sessions upload_id _,
        )
