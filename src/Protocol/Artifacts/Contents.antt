-- ===== src/Protocol/Artifacts/Contents.antt =====
-- What an artifact of shared/result-manifest.ts holds once it is decoded.
use hive_sat.Prelude.{
  ◌%◌, ◌^◌, subst, ℕ, ◌≡◌, ◌≤◌, ◌<◌, ◌+◌, ◌*◌, ◌/◌, ◌-◌, ◌==◌, ◌||◌, refl, true, false, Bool, List,
  [], ◌∷◌, Option, none, some, length, drop, take, ltb, get_elem?, arith, Bool-cases, inl, inr,
  zero, suc, ==_iff,
}
use hive_sat.Protocol.Json.{Json}
use hive_sat.Protocol.Json.Ensures.{Ensures, Between}
use hive_sat.Protocol.Manifest.{ResultManifest, max_sat_model_artifact_bytes, fixed_header_bytes}
use hive_sat.Protocol.Manifest.WellFormed.{IsCommon, IsManifest, parse_result_manifest-IsManifest}
use hive_sat.Limits.{max_variables}
use hive_sat.Formula.HiveCnf.{has_magic}
use hive_sat.ResultVerifier.{bitset_value}
use hive_sat.Protocol.Artifacts.{
  model_magic, max_metadata_bytes, max_metadata_bytes, max_sat_model_artifact_bytes, ResultManifest,
  SatModelMetadata, DecodedModel, bind_bitset, read_metadata, header_bytes,
  decode_sat_model_artifact,
}

-- The metadata are of their form, and the bitset is the rest of the bytes, with a bit for each
-- variable and fewer than eight more.
pub record IsArtifact (bytes : List ℕ) (m : SatModelMetadata) (bits : List ℕ) : Type 0 where
  pub common : IsCommon m.common
  pub few_variables : m.variable_count ≤ max_variables
  pub bits_for_variables : m.variable_count ≤ length bits * 8
  pub no_spare_byte : length bits * 8 < m.variable_count + 8
  pub few_bytes : length bytes ≤ max_sat_model_artifact_bytes
  pub few_metadata : header_bytes bytes ≤ max_metadata_bytes
  pub bits_last : bits ≡ drop (fixed_header_bytes + header_bytes bytes) bytes

abbrev pub IsDecoded : List ℕ → DecodedModel → Type 0
IsDecoded bytes (DecodedModel.artifact m bits) = IsArtifact bytes m bits
IsDecoded bytes DecodedModel.invalid_byte_length =
    ¬ Between fixed_header_bytes max_sat_model_artifact_bytes (length bytes)
IsDecoded bytes DecodedModel.invalid_magic = has_magic model_magic bytes ≡ false
IsDecoded bytes DecodedModel.invalid_metadata_length = ¬ (
    (2 ≤ header_bytes bytes)
    × (header_bytes bytes ≤ max_metadata_bytes)
    × (fixed_header_bytes + header_bytes bytes ≤ length bytes))
IsDecoded bytes DecodedModel.not_json = Unit
IsDecoded bytes DecodedModel.invalid_metadata = Unit
IsDecoded bytes DecodedModel.mismatched_bitset = Unit

-- The tests of a length between two bounds.
outside : (low high n : ℕ) → (ltb n low || ltb high n) ≡ true → ¬ Between low high n
outside low high n e h = ground (arith, h.0, h.1)

inside : (low high n : ℕ) → (ltb n low || ltb high n) ≡ false → Between low high n
inside low high n e = (ground arith, ground arith)

outside_metadata :
    (n bytes : ℕ)
    → (ltb n 2 || ltb max_metadata_bytes n || ltb bytes (fixed_header_bytes + n)) ≡ true
    → ¬ ((2 ≤ n) × (n ≤ max_metadata_bytes) × (fixed_header_bytes + n ≤ bytes))
outside_metadata n bytes e h = ground (arith, h.0, h.1, h.2)

bind_bitset-IsDecoded :
    (bytes : List ℕ) (o : Option ResultManifest)
    → length bytes ≤ max_sat_model_artifact_bytes
    → header_bytes bytes ≤ max_metadata_bytes
    → Ensures IsManifest o
    → IsDecoded bytes (bind_bitset (drop (fixed_header_bytes + header_bytes bytes) bytes) o)
bind_bitset-IsDecoded bytes none few metadata h = tt
bind_bitset-IsDecoded bytes (some (ResultManifest.unsat_candidate m)) few metadata h = tt
bind_bitset-IsDecoded bytes (some (ResultManifest.unsat_proof m)) few metadata h = tt
bind_bitset-IsDecoded bytes (some (ResultManifest.sat_model m)) few metadata h =
    let bits = drop (fixed_header_bytes + header_bytes bytes) bytes in
    elim (Bool-cases (length bits == (m.variable_count + 7) / 8)) [
      | inl e ↦
          let same = (==_iff (length bits) ((m.variable_count + 7) / 8)).0 e in
          rw e (record {
            common = h.common;
            few_variables = h.variable_count;
            bits_for_variables = omega (arith, same);
            no_spare_byte = omega (arith, same);
            few_bytes = few;
            few_metadata = metadata;
            bits_last = refl;
          })
      | inr e ↦ rw e tt
    ]

get_elem?-found : (xs : List ℕ) (i : ℕ) → i < length xs → (x : ℕ) × (get_elem? xs i ≡ some x)
get_elem?-found [] i h = absurd (omega (arith, h))
get_elem?-found (x ∷ xs) zero h = (x, refl)
get_elem?-found (x ∷ xs) (suc i) h = get_elem?-found xs i (omega (arith, h))

read_metadata-IsDecoded :
    (bytes : List ℕ) (o : Option Json)
    → length bytes ≤ max_sat_model_artifact_bytes
    → header_bytes bytes ≤ max_metadata_bytes
    → IsDecoded bytes
        (read_metadata (length bytes) (drop (fixed_header_bytes + header_bytes bytes) bytes) o)
read_metadata-IsDecoded bytes none few metadata = tt
read_metadata-IsDecoded bytes (some value) few metadata =
    bind_bitset-IsDecoded bytes _ few metadata (parse_result_manifest-IsManifest _)

-- Whatever the parser of JSON is: the artifact that a decoding returns has metadata of their form and,
-- as its bitset, all bytes after the metadata, with a bit for each variable and less than a byte to
-- spare; the length of the bytes, their first bytes or the length of the metadata are refused only if
-- they are wrong.
pub decode_sat_model_artifact-IsDecoded :
    (parse : List ℕ → Option Json) (bytes : List ℕ)
    → IsDecoded bytes (decode_sat_model_artifact parse bytes)
unfolding decode_sat_model_artifact
decode_sat_model_artifact-IsDecoded parse bytes =
    let n = header_bytes bytes in
    let long = ltb (length bytes) fixed_header_bytes in
    let large = ltb max_sat_model_artifact_bytes (length bytes) in
    elim (Bool-cases (long || large)) [
      | inl e ↦ rw e (outside fixed_header_bytes max_sat_model_artifact_bytes (length bytes) e)
      | inr e ↦ rw e (elim (Bool-cases (has_magic model_magic bytes)) [
        | inr f ↦ rw f f
        | inl f ↦
            rw f
              (elim (Bool-cases (
                ltb n 2
                || ltb max_metadata_bytes n
                || ltb (length bytes) (fixed_header_bytes + n))) [
                  | inl g ↦ rw g (outside_metadata n (length bytes) g)
                  | inr g ↦ rw g (
                      read_metadata-IsDecoded bytes (parse (take n (drop fixed_header_bytes bytes)))
                        (inside fixed_header_bytes max_sat_model_artifact_bytes (length bytes) e).1
                        (ground (arith, g)))
                ])
      ])
    ]

-- After an artifact is decoded, `bitsetValue` of its bitset has a value for each variable from 1 to the
-- count of variables of its metadata: it does not throw.
pub bitset_value-decoded :
    (parse : List ℕ → Option Json) (bytes : List ℕ) (m : SatModelMetadata) (bits : List ℕ) (x : ℕ)
    → decode_sat_model_artifact parse bytes ≡ DecodedModel.artifact m bits
    → 1 ≤ x
    → x ≤ m.variable_count
    → (b : Bool) × (bitset_value bits x ≡ some b)
unfolding bitset_value
bitset_value-decoded parse bytes m bits x e low high =
    let decoded : IsArtifact bytes m bits =
      subst (IsDecoded bytes) e (decode_sat_model_artifact-IsDecoded parse bytes) in
    let within : (x == 0 || ltb (length bits * 8) x) ≡ false =
      ground (arith, low, high, decoded.bits_for_variables) in
    let found =
      get_elem?-found bits ((x - 1) / 8) (omega (arith, low, high, decoded.bits_for_variables)) in
    (found.0 / 2 ^ ((x - 1) % 8) % 2 == 1, rw within (rw found.1 refl))
