-- ===== src/Archive/OpenLaws.antt =====
-- How reading a file in crates/database/src/archive.rs ends.
use hostlet_app.Base.{
  ℕ, zero, suc, ◌+◌, ◌≤◌, ◌<◌, ◌≡◌, ◌≢◌, inl, inr, refl, subst, Bool, true, false, not, ◌||◌, ◌&&◌,
  Option, none, some, [], ◌∷◌, ◌++◌, ltb, ◌==◌, length, if◌then◌else◌, Option-cases, arith,
}
use mathlib.Core.Option.{some-injective}
use hostlet_app.Base.Text.{Text, text_eq, bytes, len}
use Prim.Native.String.{String}
use hostlet_app.Archive.Format.{
  Bytes, ArchiveResult, valid_sha256, done, fails, panics, unfinished, and_then, ok_or, magic,
  read_u32, read_exact, nonce, aad, chunk_size_limit, max_manifest_bytes, decode_pairs,
  decode_hex_16, continues, ends_inside, hex_pair,
}
use hostlet_app.Archive.Seal.{
  Manifest, ExpectedArchive, ArchiveEnv, u64_end, sha256_text, hash_file,
}
use hostlet_app.Archive.Open.{
  open_chunk, open_chunks, open_body, open_head, check_digest, matches_target, authenticate_to,
}

-- A computation ends, with a value of which something holds if it has one.
abbrev pub EndsWith : {A : Type 0} → (A → Type 0) → ArchiveResult A → Type 0
EndsWith P (done a) = P a
EndsWith P (fails e) = Unit
EndsWith P panics = Unit
EndsWith P unfinished = ⊥

module _ {A B : Type 0} (Q : B → Type 0) where
  EndsWith-and_then :
      (P : A → Type 0) (r : ArchiveResult A) (k : A → ArchiveResult B)
      → EndsWith P r
      → ((a : A) → P a → EndsWith Q (k a))
      → EndsWith Q (and_then r k)
  EndsWith-and_then P (done a) k h good = good a h
  EndsWith-and_then P (fails e) k h good = tt
  EndsWith-and_then P panics k h good = tt
  EndsWith-and_then P unfinished k h good = absurd h

  EndsWith-ok_or :
      (o : Option A) (e : String) (k : A → ArchiveResult B)
      → ((a : A) → o ≡ some a → EndsWith Q (k a))
      → EndsWith Q (and_then (ok_or o e) k)
  EndsWith-ok_or none e k good = tt
  EndsWith-ok_or (some a) e k good = good a refl

module _ {B : Type 0} (Q : B → Type 0) where
  EndsWith-if :
      (c : Bool) (r s : ArchiveResult B)
      → EndsWith Q r
      → EndsWith Q s
      → EndsWith Q (if c then r else s)
  EndsWith-if true r s h k = h
  EndsWith-if false r s h k = k

none-some : {A : Type 0} {x : A} → ◌≢◌ {A = Option A} none (some x)
none-some h = cc

read_u32-length :
    (input : Bytes) (p : ℕ × Bytes) → read_u32 input ≡ some p → length p.1 < length input
unfolding read_u32
read_u32-length [] p h = absurd (none-some h)
read_u32-length (a ∷ []) p h = absurd (none-some h)
read_u32-length (a ∷ b ∷ []) p h = absurd (none-some h)
read_u32-length (a ∷ b ∷ c ∷ []) p h = absurd (none-some h)
read_u32-length (a ∷ b ∷ c ∷ d ∷ rest) p h =
    subst (λ q. length q.1 < suc (suc (suc (suc (length rest))))) (some-injective _ p h)
      (omega arith)

read_exact-length :
    (n : ℕ) (input : Bytes) (p : Bytes × Bytes)
    → read_exact n input ≡ some p
    → length p.1 ≤ length input
unfolding read_exact
read_exact-length zero input p h =
    subst (λ q. length q.1 ≤ length input) (some-injective _ p h) (omega arith)
read_exact-length (suc n) [] p h = absurd (none-some h)
read_exact-length (suc n) (b ∷ input) p h = elim (Option-cases (read_exact n input)) [
  | inl short ↦ absurd (none-some (rw short at h))
  | inr (q, found) ↦
      let rest = read_exact-length n input q found in
      subst (λ x. length x.1 ≤ suc (length input)) (some-injective _ p (rw found at h))
        (omega (arith, rest))
]

open_chunk-EndsWith :
    (env : ArchiveEnv) (prefix manifest : Bytes) (index : ℕ) (input : Bytes)
    → EndsWith (λ p. length p.1 < length input) (open_chunk env prefix manifest index input)
unfolding open_chunk
open_chunk-EndsWith env prefix manifest index input =
    EndsWith-ok_or _ (read_u32 input) _ _ λ p first. EndsWith-ok_or _ (read_u32 p.1) _ _ λ s second.
      EndsWith-if _ (ltb chunk_size_limit p.0 || not (s.0 == p.0 + 16)) _ _ tt (
        EndsWith-ok_or _ (read_exact s.0 s.1) _ _ λ c third.
          EndsWith-ok_or _ (env.decrypt (nonce prefix index) (aad manifest index (p.0 == 0)) c.0) _
            _
            λ opened _. EndsWith-if _ (not (length opened == p.0)) _ _ tt (
              shorter (read_u32-length input p first) (read_u32-length p.1 s second)
                (read_exact-length s.0 s.1 c third)))
  where
    shorter : {a b c d : ℕ} → b < a → c < b → d ≤ c → d < a
    shorter h k l = omega (arith, h, k, l)

open_chunks-EndsWith :
    (fuel : ℕ) (env : ArchiveEnv) (prefix manifest : Bytes) (index total : ℕ) (input : Bytes)
    → length input < fuel
    → EndsWith (λ _. Unit {0}) (open_chunks fuel env prefix manifest index total input)
unfolding open_chunks
open_chunks-EndsWith zero env prefix manifest index total input enough =
    absurd (omega (arith, enough))
open_chunks-EndsWith (suc fuel) env prefix manifest index total input enough =
    EndsWith-and_then _ _ (open_chunk env prefix manifest index input) _
      (open_chunk-EndsWith env prefix manifest index input)
      (λ chunk shorter. turn chunk.0 chunk.1 (
        open_chunks-EndsWith fuel env prefix manifest (index + 1) (total + length chunk.0) chunk.1
          (omega (arith, shorter, enough))))
  where
    turn :
        (opened rest : Bytes)
        → EndsWith
            (λ _. Unit {0})
            (open_chunks fuel env prefix manifest (index + 1) (total + length opened) rest)
        → EndsWith
            (λ _. Unit {0})
            (elim opened as (λ _. ArchiveResult Bytes) [
              | [] ↦ elim rest [ [] ↦ done [] | _ ∷ _ ↦ fails "archive_trailing_data" ]
              | b ∷ bs ↦
                  if ltb (total + length (b ∷ bs)) u64_end && ltb (index + 1) u64_end
                  then and_then
                      (open_chunks fuel env prefix manifest
                        (index + 1)
                        (total + length (b ∷ bs))
                        rest)
                      (λ later. done ((b ∷ bs) ++ later))
                  else fails "archive_too_large"
            ])
    turn [] [] h = tt
    turn [] (x ∷ rest) h = tt
    turn (b ∷ bs) rest h =
        EndsWith-if _ (ltb (total + length (b ∷ bs)) u64_end && ltb (index + 1) u64_end) _ _
          (EndsWith-and_then _ (λ _. Unit {0})
            (open_chunks fuel env prefix manifest (index + 1) (total + length (b ∷ bs)) rest) _ h
            (λ _ _. tt))
          tt

pair_after-EndsWith :
    (o : Option ℕ) (later : ArchiveResult Bytes)
    → EndsWith (λ _. Unit {0}) later
    → EndsWith
        (λ _. Unit {0})
        (elim o as (λ _. ArchiveResult Bytes) [
          | none ↦ fails "archive_manifest_invalid"
          | some n ↦ and_then later (λ ns. done (n ∷ ns))
        ])
pair_after-EndsWith none later h = tt
pair_after-EndsWith (some n) later h = EndsWith-and_then _ _ later _ h (λ _ _. tt)

decode_pairs-EndsWith : (bs : Bytes) → EndsWith (λ _. Unit {0}) (decode_pairs bs)
unfolding decode_pairs
decode_pairs-EndsWith [] = tt
decode_pairs-EndsWith (b ∷ []) = tt
decode_pairs-EndsWith (b ∷ c ∷ rest) =
    EndsWith-if _ (continues b || ends_inside rest) _ _ tt
      (pair_after-EndsWith (hex_pair b c) (decode_pairs rest) (decode_pairs-EndsWith rest))

decode_hex_16-EndsWith : (value : Text) → EndsWith (λ _. Unit {0}) (decode_hex_16 value)
unfolding decode_hex_16
decode_hex_16-EndsWith value =
    EndsWith-if _ (not (len value == 32)) _ _ tt (decode_pairs-EndsWith (bytes value))

open_head-EndsWith :
    (env : ArchiveEnv) (key_id : Text) (expected : ExpectedArchive) (file : Bytes)
    → EndsWith (λ _. Unit {0}) (open_head env key_id expected file)
unfolding open_head
open_head-EndsWith env key_id expected file = EndsWith-ok_or _ (read_exact 23 file) _ _ λ head _.
    EndsWith-if _ (not (text_eq head.0 magic)) _ _ tt (
      EndsWith-ok_or _ (read_u32 head.1) _ _ λ size _.
        EndsWith-if _ (size.0 == 0 || ltb max_manifest_bytes size.0) _ _ tt (
          EndsWith-ok_or _ (read_exact size.0 size.1) _ _ λ body _.
            EndsWith-ok_or _ (env.parse body.0) _ _
              λ manifest _. EndsWith-if _ (matches_target key_id expected manifest) _ _ tt tt))

open_body-EndsWith :
    (env : ArchiveEnv) (manifest : Manifest) (written input : Bytes)
    → EndsWith (λ _. Unit {0}) (open_body env manifest written input)
unfolding open_body
open_body-EndsWith env manifest written input =
    EndsWith-and_then _ _ (decode_hex_16 manifest.nonce_prefix) _
      (decode_hex_16-EndsWith manifest.nonce_prefix)
      λ prefix _.
        EndsWith-and_then _ _ (open_chunks (suc (length input)) env prefix written 0 0 input) _
          (open_chunks-EndsWith (suc (length input)) env prefix written 0 0 input (omega arith))
          λ plain _.
            EndsWith-if _
              (length plain == manifest.plaintext_bytes
                && text_eq (sha256_text env plain) manifest.plaintext_sha256)
              _ _ tt tt

check_digest-EndsWith :
    (env : ArchiveEnv) (file : Bytes) (digest : Option Text)
    → EndsWith (λ _. Unit {0}) (check_digest env file digest)
unfolding check_digest hash_file
check_digest-EndsWith env file none = tt
check_digest-EndsWith env file (some digest) = EndsWith-if _ (not (valid_sha256 digest)) _ _ tt (
    EndsWith-and_then _ (λ _. Unit {0}) (hash_file env file) _
      (EndsWith-if _ (ltb (length file) u64_end) _ _ tt tt)
      (λ found _. EndsWith-if _ (text_eq found.1 digest) _ _ tt tt))

-- For every file, even one that nobody sealed, and every cipher, reading the archive ends: with a
-- value, an error or a panic. The fuel that its loop is given is always enough.
pub authenticate_to-unfinished :
    (env : ArchiveEnv) (key_id : Text) (expected : ExpectedArchive) (file : Bytes)
    → authenticate_to env key_id expected file ≢ unfinished
unfolding authenticate_to
authenticate_to-unfinished env key_id expected file h = subst (EndsWith (λ _. Unit {0})) h (
    EndsWith-and_then _ _ (check_digest env file expected.encrypted_sha256) _
      (check_digest-EndsWith env file expected.encrypted_sha256)
      (λ _ _.
        EndsWith-and_then _ _ (open_head env key_id expected file) _
          (open_head-EndsWith env key_id expected file)
          (λ head _. open_body-EndsWith env head.0 head.1 head.2)))
