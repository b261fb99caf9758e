-- ===== src/Blob/Chunks/Laws.antt =====
-- When a file sent in chunks is complete, and when it never will be.
use dogrs.Base.{
  ℕ, suc, ◌+◌, ◌%◌, ◌^◌, ◌<◌, ◌≤◌, ◌≡◌, ◌≢◌, sym, ap, String, false, some, List, [], ◌∷◌, arith,
  eqb, length, string_eq, In, here, there, inl, inr,
}
use dogrs.Base.Results.{ok, Result-cases}
use dogrs.Blob.Adapter.{BlobPut}
use dogrs.Blob.Coordinator.{Readings}
use dogrs.Blob.Chunks.{
  ChunkSetup, ChunkState, ChunkSession, ChunkResult, receive_chunk, store_chunk, put_chunk,
  write_chunk,
}
use dogrs.Blob.Parts
use dogrs.Blob.Parts.{PartMap}
use dogrs.Blob.Types.{BlobResult, BlobCtx, BlobReceipt}
use dogrs.Dict
use dogrs.Dict.{Dict, get-put_self, get_or_default-get}

length-insert :
    {A : Type 0} (m : PartMap A) (p : ℕ) (a : A)
    → (length m ≤ length (Parts.insert m p a)) × (length (Parts.insert m p a) ≤ length m + 1)
unfolding Parts.insert
length-insert [] p a = omega arith
length-insert ((q, b) ∷ m) p a = ground (arith, length-insert m p a)

-- The arguments of a call of `put_chunk`, but for the session and the number of chunks.
pub record ChunkCall (Json : Type 0) : Type 0 where
  pub ctx : BlobCtx
  pub chunk_index : ℕ
  pub put : BlobPut Json
  pub chunk : List ℕ
  pub blob_id : String
  pub id : String
  pub now : Readings

module _ {Json : Type 0} (c : ChunkSetup Json) (session_id : String) (total_chunks : ℕ) where
  abbrev called : ChunkCall Json → ChunkState c → BlobResult (ChunkResult Json) × ChunkState c
  called k =
      put_chunk c k.ctx session_id k.chunk_index total_chunks k.put k.chunk k.blob_id k.id k.now

  -- The results of calls in turn.
  unfoldable pub run : List (ChunkCall Json) → ChunkState c → List (BlobResult (ChunkResult Json))
  run [] s = []
  run (k ∷ ks) s = let (r, s') = called k s in r ∷ run ks s'

  -- A session of the id has more chunks than the total, and fewer than overflow the counter after so many more.
  unfoldable IsOverfull : ℕ → ChunkState c → Type 0
  IsOverfull more s =
      (session : ChunkSession) × (Dict.get s.chunk_sessions session_id ≡ some session)
      × (total_chunks < length session.received_chunks)
      × (length session.received_chunks + more < 2 ^ 32)

  receive_chunk-IsOverfull :
      (k : ChunkCall Json) (session : ChunkSession) (more : ℕ) (s : ChunkState c)
      → total_chunks < length session.received_chunks
      → length session.received_chunks + suc more < 2 ^ 32
      → ((r : BlobReceipt Json)
          → (receive_chunk c k.ctx session_id k.chunk_index total_chunks session k.id k.now s).0
            ≢ ok (ChunkResult.complete r))
        × IsOverfull more
            (receive_chunk c k.ctx session_id k.chunk_index total_chunks session k.id k.now s).1
  unfolding receive_chunk IsOverfull
  receive_chunk-IsOverfull k session more s over room =
      let bounds = length-insert session.received_chunks k.chunk_index tt in
      let miss : eqb (length (Parts.insert session.received_chunks k.chunk_index tt) % 2 ^ 32)
            total_chunks
          ≡ false =
        ground (arith, bounds, over, room) in
      rw miss (
        λ r e. ground (arith, e),
        (
          _,
          get-put_self s.chunk_sessions session_id _,
          omega (arith, bounds),
          omega (arith, bounds),
        ),
      )

  called-found :
      (k : ChunkCall Json) (s : ChunkState c) (session : ChunkSession)
      → Dict.get s.chunk_sessions session_id ≡ some session
      → called k s
        ≡ store_chunk c k.ctx session_id k.chunk_index total_chunks session k.chunk k.id k.now s
  unfolding put_chunk
  called-found k s session found =
      ap (λ x. store_chunk c k.ctx session_id k.chunk_index total_chunks x k.chunk k.id k.now s)
        (get_or_default-get s.chunk_sessions session_id _ session found)

  called-IsOverfull :
      (k : ChunkCall Json) (more : ℕ) (s : ChunkState c)
      → IsOverfull (suc more) s
      → ((r : BlobReceipt Json) → (called k s).0 ≢ ok (ChunkResult.complete r))
        × IsOverfull more (called k s).1
  unfolding IsOverfull store_chunk
  called-IsOverfull k more s (session, got, over, room) =
      rw (called-found k s session got)
        (elim (Result-cases (write_chunk c session.temp_dir k.chunk_index k.chunk s.files).0) [
          | inl (e, failed) ↦
              rw (failed, store_chunk)
                (
                  λ r e. ground (arith, e),
                  (_, get-put_self s.chunk_sessions session_id _, over, omega (arith, room)),
                )
          | inr (u, wrote) ↦
              rw (wrote, store_chunk) (receive_chunk-IsOverfull k session more _ over room)
        ])

  -- Once a session has more chunks than the total of the calls, no sequence of calls of `put_chunk`
  -- on it with this total completes the file, whatever the chunks, as long as the count of chunks
  -- does not overflow.
  pub run-never_complete :
      (ks : List (ChunkCall Json)) (s : ChunkState c) (session : ChunkSession)
      (r : BlobReceipt Json)
      → Dict.get s.chunk_sessions session_id ≡ some session
      → total_chunks < length session.received_chunks
      → length session.received_chunks + length ks < 2 ^ 32
      → ¬ In (ok (ChunkResult.complete r)) (run ks s)
  unfolding IsOverfull run
  run-never_complete ks s session r got over room = never ks s (session, got, over, room)
    where
      never :
          (ks : List (ChunkCall Json)) (s : ChunkState c)
          → IsOverfull (length ks) s
          → ¬ In (ok (ChunkResult.complete r)) (run ks s)
      never [] s full i = elim i [ ]
      never (k ∷ ks) s full i =
          let (fails, full') = called-IsOverfull k (length ks) s full in
          elim i [ here e ↦ fails r (sym e) | there i' ↦ never ks _ full' i' ]
