-- ===== src/Pipeline/Batch/Dedup.antt =====
-- The hashes of the bodies that one batch inserts.
use halley.Common.{ℕ, ◌≡◌, refl, ◌↔◌, true, false, List, [], ◌∷◌, ◌||◌, arith}
use halley.Domain.Rows.{BodyRow}
use halley.Pipeline.Batch.{bytes_eq, seen, dedup}

abbrev pub hashes : List BodyRow → List (List ℕ)
hashes [] = []
hashes (b ∷ bodies) = b.body_hash ∷ hashes bodies

-- No hash occurs twice, nor among `before`.
abbrev pub AreNew : List (List ℕ) → List BodyRow → Type 0
AreNew before [] = Unit
AreNew before (b ∷ bodies) =
    (seen before b.body_hash ≡ false) × AreNew (b.body_hash ∷ before) bodies

bytes_eq_iff : (a b : List ℕ) → (bytes_eq a b ≡ true) ↔ (a ≡ b)
unfolding bytes_eq
bytes_eq_iff [] [] = ground arith
bytes_eq_iff [] (b ∷ ys) = ground arith
bytes_eq_iff (a ∷ xs) [] = ground arith
bytes_eq_iff (a ∷ xs) (b ∷ ys) = ground (arith, bytes_eq_iff xs ys)

dedup-AreNew :
    (before : List (List ℕ)) (bodies : List BodyRow) → AreNew before (dedup before bodies)
unfolding dedup
dedup-AreNew before [] = tt
dedup-AreNew before (b ∷ bodies) =
    ground (arith, dedup-AreNew before bodies, dedup-AreNew (b.body_hash ∷ before) bodies)

seen-dedup :
    (before : List (List ℕ)) (bodies : List BodyRow) (h : List ℕ)
    → (seen before h || seen (hashes (dedup before bodies)) h)
      ≡ (seen before h || seen (hashes bodies) h)
unfolding dedup
seen-dedup before [] h = refl
seen-dedup before (b ∷ bodies) h = ground (
  arith,
  bytes_eq_iff b.body_hash h,
  seen-dedup before bodies h,
  seen-dedup (b.body_hash ∷ before) bodies h,
)

-- The bodies that one batch inserts have pairwise different hashes, and a hash is among theirs
-- exactly when it is among those of the batch.
pub dedup_lem :
    (bodies : List BodyRow)
    → AreNew [] (dedup [] bodies)
      × ((h : List ℕ) → seen (hashes (dedup [] bodies)) h ≡ seen (hashes bodies) h)
dedup_lem bodies = (dedup-AreNew [] bodies, λ h. unfold seen in seen-dedup [] bodies h)
