-- ===== src/Archive/RoundTrip.antt =====
-- Reading what was sealed in crates/database/src/archive.rs.
use hostlet_app.Base.{
  ℕ, zero, suc, ◌+◌, ◌≤◌, ◌<◌, ◌≡◌, inl, inr, refl, sym, ap, subst, Bool, true, false, not, ◌||◌,
  some, List, [], ◌∷◌, ◌++◌, ltb, ◌==◌, length, length-append, All, Bool-cases, Option-cases, arith,
}
use Prim.Native.String.{String}
use hostlet_app.Archive.Format.{
  Bytes, ArchiveResult, done, fails, panics, unfinished, and_then, chunk_size_limit, u32_bytes,
  nonce, aad,
}
use hostlet_app.Archive.HexLaws.{u32_value, read_exact-append}
use hostlet_app.Archive.Seal.{ArchiveEnv, u64_end, joined, chunk_bytes, seal_chunk, seal_chunks}
use hostlet_app.Archive.Open.{open_chunk, open_chunks}

module _ {A : Type 0} where
  abbrev value_of : A → ArchiveResult A → A
  value_of a (done b) = b
  value_of a _ = a

  pub done-injective : (a b : A) → done a ≡ done b → a ≡ b
  done-injective a b h = ap (value_of a) h

  pub fails-done : {e : String} {a : A} → fails e ≡ done a → ⊥
  fails-done h = cc

module _ {A B : Type 0} where
  pub and_then-done :
      (r : ArchiveResult A) (k : A → ArchiveResult B) (b : B)
      → and_then r k ≡ done b
      → (a : A) × (r ≡ done a) × (k a ≡ done b)
  and_then-done (done a) k b h = (a, refl, h)
  and_then-done (fails e) k b h = absurd (fails-done h)
  and_then-done panics k b h = absurd cc
  and_then-done unfinished k b h = absurd cc

seal_chunk-done :
    (env : ArchiveEnv) (prefix manifest : Bytes) (index : ℕ) (final_chunk : Bool)
    (plain chunk : Bytes)
    → seal_chunk env prefix manifest index final_chunk plain ≡ done chunk
    → (sealed : Bytes) × (env.encrypt (nonce prefix index) (aad manifest index final_chunk) plain
        ≡ some sealed)
      × (ltb (index + 1) u64_end ≡ true)
      × (chunk ≡ chunk_bytes (length plain) sealed)
unfolding seal_chunk
seal_chunk-done env prefix manifest index final_chunk plain chunk h =
    elim (Option-cases (env.encrypt (nonce prefix index) (aad manifest index final_chunk) plain)) [
      | inl failed ↦ absurd (fails-done (rw (seal_chunk, failed) at h))
      | inr (sealed, encrypted) ↦ elim (Bool-cases (ltb (index + 1) u64_end)) [
        | inl counts ↦ (
          sealed,
          encrypted,
          counts,
          sym (done-injective _ chunk (rw (seal_chunk, encrypted, counts) at h)),
        )
        | inr full ↦ absurd (fails-done (rw (seal_chunk, encrypted, full) at h))
      ]
    ]

sizes_agree :
    (p s : ℕ)
    → p ≤ chunk_size_limit
    → s ≡ p + 16
    → (ltb chunk_size_limit p || not (s == p + 16)) ≡ false
sizes_agree p s h k = ground arith

pub same_number : (n : ℕ) → (n == n) ≡ true
same_number n = ground arith

append_nil : (xs : Bytes) → xs ++ [] ≡ xs
append_nil [] = refl
append_nil (x ∷ xs) = ap (λ t. x ∷ t) (append_nil xs)

not_empty : (n : ℕ) → false ≡ (suc n == 0)
not_empty n = ground arith

pub below : (n m : ℕ) → n < m → ltb n m ≡ true
below n m h = ground arith

module _ (env : ArchiveEnv)
    (opens : (n a m c : Bytes) → env.encrypt n a m ≡ some c → env.decrypt n a c ≡ some m)
    (grows : (n a m c : Bytes) → env.encrypt n a m ≡ some c → length c ≡ length m + 16) where
  open_chunk-chunk_bytes :
      (prefix manifest : Bytes) (index : ℕ) (plain sealed rest : Bytes)
      → env.encrypt (nonce prefix index) (aad manifest index (length plain == 0)) plain
        ≡ some sealed
      → length plain ≤ chunk_size_limit
      → open_chunk env prefix manifest index (chunk_bytes (length plain) sealed ++ rest)
        ≡ done (plain, rest)
  unfolding open_chunk u32_bytes
  open_chunk-chunk_bytes prefix manifest index plain sealed rest encrypted small =
      let size =
        grows (nonce prefix index) (aad manifest index (length plain == 0)) plain sealed
          encrypted in
      rw
        (
          u32_value (length plain) (omega (arith, small)),
          u32_value (length sealed) (omega (arith, small, size)),
          sizes_agree (length plain) (length sealed) small size,
          read_exact-append sealed rest,
          opens (nonce prefix index) (aad manifest index (length plain == 0)) plain sealed
              encrypted,
          same_number (length plain),
        )
        refl

  open_chunk-seal_chunk :
      (prefix manifest : Bytes) (index : ℕ) (final_chunk : Bool) (plain chunk rest : Bytes)
      → seal_chunk env prefix manifest index final_chunk plain ≡ done chunk
      → final_chunk ≡ (length plain == 0)
      → length plain ≤ chunk_size_limit
      → open_chunk env prefix manifest index (chunk ++ rest) ≡ done (plain, rest)
  open_chunk-seal_chunk prefix manifest index final_chunk plain chunk rest h ends small =
      let (sealed, encrypted, _, shape) =
        seal_chunk-done env prefix manifest index (length plain == 0) plain chunk
          (subst (λ f. seal_chunk env prefix manifest index f plain ≡ done chunk) ends h) in
      subst (λ c. open_chunk env prefix manifest index (c ++ rest) ≡ done (plain, rest)) (sym shape)
        (open_chunk-chunk_bytes prefix manifest index plain sealed rest encrypted small)

  pub seal_chunks-length :
      (prefix manifest : Bytes) (index : ℕ) (reads : List Bytes) (chunks : Bytes)
      → seal_chunks env prefix manifest index reads ≡ done chunks
      → length reads ≤ length chunks
  unfolding seal_chunks u32_bytes
  seal_chunks-length prefix manifest index [] chunks h = omega arith
  seal_chunks-length prefix manifest index (r ∷ rs) chunks h =
      let (first, sealed_first, more) =
        and_then-done (seal_chunk env prefix manifest index false r) _ chunks h in
      let (later, sealed_later, whole) =
        and_then-done (seal_chunks env prefix manifest (index + 1) rs) _ chunks more in
      let (sealed, _, _, shape) =
        seal_chunk-done env prefix manifest index false r first sealed_first in
      let before = seal_chunks-length prefix manifest (index + 1) rs later sealed_later in
      subst (λ c. suc (length rs) ≤ length c) (done-injective _ chunks whole)
        (rw (shape, length-append sealed later) (omega (arith, before)))

  open_chunks_last :
      (fuel : ℕ) (prefix manifest : Bytes) (index total : ℕ) (input : Bytes)
      → open_chunk env prefix manifest index input ≡ done ([], [])
      → open_chunks (suc fuel) env prefix manifest index total input ≡ done []
  unfolding open_chunks
  open_chunks_last fuel prefix manifest index total input opened = rw (open_chunks, opened) refl

  open_chunks_more :
      (fuel : ℕ) (prefix manifest : Bytes) (index total : ℕ) (input : Bytes) (b : ℕ)
      (bs later plain : Bytes)
      → open_chunk env prefix manifest index input ≡ done (b ∷ bs, later)
      → ltb (total + length (b ∷ bs)) u64_end ≡ true
      → ltb (index + 1) u64_end ≡ true
      → open_chunks fuel env prefix manifest (index + 1) (total + length (b ∷ bs)) later
        ≡ done plain
      → open_chunks (suc fuel) env prefix manifest index total input ≡ done ((b ∷ bs) ++ plain)
  unfolding open_chunks
  open_chunks_more fuel prefix manifest index total input b bs later plain opened fits counts rest =
      rw (open_chunks, opened, fits, counts, rest) refl

  pub open_chunks-seal_chunks :
      (fuel : ℕ) (prefix manifest : Bytes) (index total : ℕ) (reads : List Bytes) (chunks : Bytes)
      → seal_chunks env prefix manifest index reads ≡ done chunks
      → All (λ r. (0 < length r) × (length r ≤ chunk_size_limit)) reads
      → total + length (joined reads) < u64_end
      → length reads < fuel
      → open_chunks fuel env prefix manifest index total chunks ≡ done (joined reads)
  unfolding seal_chunks
  open_chunks-seal_chunks zero prefix manifest index total reads chunks h parts fits enough =
      absurd (omega (arith, enough))
  open_chunks-seal_chunks (suc fuel) prefix manifest index total [] chunks h parts fits enough =
      open_chunks_last fuel prefix manifest index total chunks (
        subst (λ c. open_chunk env prefix manifest index c ≡ done ([], [])) (append_nil chunks)
          (open_chunk-seal_chunk prefix manifest index true [] chunks [] h refl (omega arith)))
  open_chunks-seal_chunks (suc fuel) prefix manifest index total ([] ∷ rs) chunks h parts fits
        enough =
      absurd (omega (arith, parts.0.0))
  open_chunks-seal_chunks (suc fuel) prefix manifest index total ((b ∷ bs) ∷ rs) chunks h parts fits
        enough =
      let (first, sealed_first, more) =
        and_then-done (seal_chunk env prefix manifest index false (b ∷ bs)) _ chunks h in
      let (later, sealed_later, whole) =
        and_then-done (seal_chunks env prefix manifest (index + 1) rs) _ chunks more in
      let (_, _, counts, _) =
        seal_chunk-done env prefix manifest index false (b ∷ bs) first sealed_first in
      let size = length-append (b ∷ bs) (joined rs) in
      open_chunks_more fuel prefix manifest index total chunks b bs later (joined rs)
        (subst (λ c. open_chunk env prefix manifest index c ≡ done (b ∷ bs, later))
          (done-injective _ chunks whole)
          (open_chunk-seal_chunk prefix manifest index false (b ∷ bs) first later sealed_first
            (not_empty (length bs)) parts.0.1))
        (below (total + length (b ∷ bs)) u64_end (omega (arith, fits, size))) counts
        (open_chunks-seal_chunks fuel prefix manifest (index + 1) (total + length (b ∷ bs)) rs later
          sealed_later parts.1 (omega (arith, fits, size)) (omega (arith, enough)))
