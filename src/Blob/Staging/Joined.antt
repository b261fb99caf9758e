-- ===== src/Blob/Staging/Joined.antt =====
-- An upload is a map from the numbers of its parts to their bytes; what joining the staged parts gives.
use dogrs.Base.{
  ℕ, ◌≡◌, ◌≢◌, refl, sym, ap, ◌∙◌, String, Option, none, some, List, [], ◌∷◌, ◌++◌, map, All, arith,
  eqb, length, if◌then◌else◌, In, here, there, Option-cases, inl, inr,
}
use mathlib.Core.List.{append_assoc}
use dogrs.Base.Results.{Result, ok, err}
use dogrs.Blob.Staging.{UploadSetup, concat_part_streams, delete_all}
use dogrs.Blob.Store.{ByteStream, bytes_of, IsReliable}
use dogrs.Blob.Types.{PartReceipt}

-- Of one part: what is recorded, what it is, and what is staged.
abbrev pub PartIs : Option PartReceipt → Option (List ℕ) → Option (List ℕ) → Type 0
PartIs none none staged = Unit
PartIs (some r) (some bytes) staged = (staged ≡ some bytes) × (r.size_bytes ≡ length bytes)
PartIs _ _ staged = ⊥

-- The upload with the part.
abbrev pub with_part : (ℕ → Option (List ℕ)) → ℕ → List ℕ → ℕ → Option (List ℕ)
with_part f p bytes q = if eqb p q then some bytes else f q

-- The bytes of the parts of the numbers, one after the other.
unfoldable pub joined : (ℕ → Option (List ℕ)) → List ℕ → List ℕ
joined f [] = []
joined f (p ∷ ps) = elim (f p) [ none ↦ joined f ps | some bytes ↦ bytes ++ joined f ps ]

pub joined-some :
    (f : ℕ → Option (List ℕ)) (p : ℕ) (ps : List ℕ) (bytes : List ℕ)
    → f p ≡ some bytes
    → joined f (p ∷ ps) ≡ bytes ++ joined f ps
unfolding joined
joined-some f p ps bytes e = rw (e, joined) refl

-- Every number up to the total has a part.
abbrev pub IsWhole : (ℕ → Option (List ℕ)) → List ℕ → Type 0
IsWhole f = All (λ (p : ℕ). (bytes : List ℕ) × (f p ≡ some bytes))

pub recorded :
    (o : Option PartReceipt) (a x : Option (List ℕ)) (bytes : List ℕ)
    → PartIs o a x
    → a ≡ some bytes
    → (r : PartReceipt) × (o ≡ some r) × (x ≡ some bytes)
recorded none none x bytes i e = absurd (ground (arith, e))
recorded none (some b) x bytes i e = absurd i
recorded (some r) none x bytes i e = absurd i
recorded (some r) (some b) x bytes i e = (r, refl, ground (arith, e, i.0))

abbrev pub followed : Result String (List ℕ) → List ℕ → Result String (List ℕ)
followed (err e) b = err e
followed (ok a) b = ok (a ++ b)

abbrev pub preceded : List ℕ → Result String (List ℕ) → Result String (List ℕ)
preceded chunk (err e) = err e
preceded chunk (ok a) = ok (chunk ++ a)

pub followed-preceded :
    (chunk b : List ℕ) (x : Result String (List ℕ))
    → preceded chunk (followed x b) ≡ followed (preceded chunk x) b
followed-preceded chunk b (err e) = refl
followed-preceded chunk b (ok a) = ap ok (sym (append_assoc chunk a b))

pub bytes_of-append :
    (s t : ByteStream) (b : List ℕ)
    → bytes_of t ≡ ok b
    → bytes_of (s ++ t) ≡ followed (bytes_of s) b
unfolding bytes_of
bytes_of-append [] t b right = right
bytes_of-append (err e ∷ s) t b right = refl
bytes_of-append (ok chunk ∷ s) t b right =
    ap (preceded chunk) (bytes_of-append s t b right) ∙ followed-preceded chunk b (bytes_of s)

pub delete_all-contents :
    (c : UploadSetup) (h : IsReliable c.blobs) (key : ℕ → String) (j : String) (ps : List ℕ)
    (st : c.blobs.State)
    → ((p : ℕ) → key p ≢ j)
    → h.contents (delete_all c (map key ps) st) j ≡ h.contents st j
unfolding delete_all
delete_all-contents c h key j [] st apart = refl
delete_all-contents c h key j (p ∷ ps) st apart =
    delete_all-contents c h key j ps (c.blobs.delete (key p) st).1 apart
    ∙ h.delete_others (key p) j st (apart p)

bytes_of-broken :
    (s t : ByteStream) (e : String)
    → bytes_of t ≡ err e
    → (d : String) × (bytes_of (s ++ t) ≡ err d)
unfolding bytes_of
bytes_of-broken [] t e broken = (e, broken)
bytes_of-broken (err d ∷ s) t e broken = (d, refl)
bytes_of-broken (ok chunk ∷ s) t e broken =
    let (d, rest) = bytes_of-broken s t e broken in (d, ap (preceded chunk) rest)

-- A part that is not staged breaks the stream.
pub concat-broken :
    (c : UploadSetup) (h : IsReliable c.blobs) (key : ℕ → String) (st : c.blobs.State) (p : ℕ)
    (ps : List ℕ)
    → In p ps
    → h.contents st (key p) ≡ none
    → (e : String) × (bytes_of (concat_part_streams c (map key ps) st) ≡ err e)
unfolding concat_part_streams bytes_of
concat-broken c h key st p [] i lost = elim i [ ]
concat-broken c h key st p (q ∷ ps) i lost = elim (Option-cases (h.contents st (key q))) [
  | inl miss ↦ let (e, got) = h.get_missing (key q) none st miss in rw got (_, refl)
  | inr (bytes, held) ↦
      let (stream, got, clean) = h.get_ok (key q) st bytes held in
      elim i [
        | here same ↦ absurd (none_some (sym lost ∙ ap (λ n. h.contents st (key n)) same ∙ held))
        | there i' ↦
            let (e, rest) = concat-broken c h key st p ps i' lost in
            rw got (bytes_of-broken stream.stream _ e rest)
      ]
]
  where
    none_some : {bytes : List ℕ} → none ≢ some bytes
    none_some e = ground (arith, e)
