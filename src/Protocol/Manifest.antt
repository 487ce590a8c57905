-- ===== src/Protocol/Manifest.antt =====
-- `parseResultManifest` of shared/result-manifest.ts.
pub mod WellFormed
use Prim.Native.String.{String}
use hive_sat.Prelude.{
  ℕ, Bool, not, List, [], ◌∷◌, ◌&&◌, ◌+◌, ◌==◌, Option, none, some, length, any, map, leb, ℤ, abs,
  true, false,
}
use hive_sat.Limits.{max_clauses, max_variables}
use hive_sat.Protocol.Json.{
  Json, Fields, property, same_text, is_version, ◌>>=◌, ◌>>◌, guard, fields_of, array_of, text_of,
  id_of, sha256_of, bounded_integer, literal_of, each, one_of,
}

-- MAX_UNSAT_PROOF_COMPRESSED_BYTES, MAX_UNSAT_PROOF_DECOMPRESSED_BYTES, MAX_SAT_MODEL_ARTIFACT_BYTES
-- and FIXED_HEADER_BYTES.
abbrev pub max_proof_compressed_bytes : ℕ
max_proof_compressed_bytes = 26214400

abbrev pub max_proof_decompressed_bytes : ℕ
max_proof_decompressed_bytes = 134217728

abbrev pub max_sat_model_artifact_bytes : ℕ
max_sat_model_artifact_bytes = 524288

abbrev pub fixed_header_bytes : ℕ
fixed_header_bytes = 12

-- The fields of every manifest.
pub record CommonMetadata : Type 0 where
  pub formula_hash : String
  pub task_id : String
  pub cube : List ℤ
  pub path_hash : String
  pub solver_version : String

pub record SatResultManifest : Type 0 where
  pub common : CommonMetadata
  pub artifact_id : String
  pub artifact_sha256 : String
  pub artifact_bytes : ℕ
  pub variable_count : ℕ

pub record UnsatProofManifest : Type 0 where
  pub common : CommonMetadata
  pub artifact_id : String
  pub artifact_sha256 : String
  pub compressed_bytes : ℕ
  pub decompressed_bytes : ℕ
  pub original_clause_count : ℕ
  pub cube_clause_ids : List ℕ

pub data ResultManifest : Type 0 where
  sat_model : SatResultManifest → ResultManifest
  unsat_candidate : CommonMetadata → ResultManifest
  unsat_proof : UnsatProofManifest → ResultManifest

-- `new Set(cube.map(Math.abs)).size === cube.length`
abbrev pub distinct_variables : List ℤ → Bool
distinct_variables [] = true
distinct_variables (z ∷ zs) = not (any (λ y. abs y == abs z) zs) && distinct_variables zs

-- `isCube`
unfoldable pub cube_of : Option Json → Option (List ℤ)
cube_of j = do
  js ← array_of j
  guard (leb (length js) 64)
  cube ← each literal_of js
  guard (distinct_variables cube)
  some cube

-- `commonMetadata`
unfoldable pub common_metadata : Fields → Option CommonMetadata
common_metadata v = do
  formula_hash ← sha256_of (property "formulaHash" v)
  task_id ← id_of (property "taskId" v)
  cube ← cube_of (property "cube" v)
  path_hash ← sha256_of (property "pathHash" v)
  solver_version ← text_of is_version (property "solverVersion" v)
  some (record {
    formula_hash = formula_hash;
    task_id = task_id;
    cube = cube;
    path_hash = path_hash;
    solver_version = solver_version;
  })

-- `id === Number(value.originalClauseCount) + index + 1` for every id.
abbrev pub ids_from : ℕ → List ℕ → Bool
ids_from n [] = true
ids_from n (id ∷ ids) = (id == n + 1) && ids_from (n + 1) ids

-- Number.isSafeInteger
abbrev pub max_safe_integer : ℕ
max_safe_integer = 9007199254740991

pub proof_manifest : Fields → CommonMetadata → Option ResultManifest
proof_manifest v common = do
  _ ← bounded_integer 1 1 (property "version" v)
  artifact_id ← id_of (property "artifactId" v)
  artifact_sha256 ← sha256_of (property "artifactSha256" v)
  compressed ← bounded_integer 1 max_proof_compressed_bytes (property "compressedBytes" v)
  decompressed ← bounded_integer 1 max_proof_decompressed_bytes (property "decompressedBytes" v)
  count ← bounded_integer 0 max_clauses (property "originalClauseCount" v)
  js ← array_of (property "cubeClauseIds" v)
  guard (length js == length common.cube)
  ids ← each (bounded_integer 0 max_safe_integer) js
  guard (ids_from count ids)
  _ ← one_of (("drat-trim-lrat-check", tt) ∷ []) (property "checker" v)
  some (
      ResultManifest.unsat_proof (record {
        common = common;
        artifact_id = artifact_id;
        artifact_sha256 = artifact_sha256;
        compressed_bytes = compressed;
        decompressed_bytes = decompressed;
        original_clause_count = count;
        cube_clause_ids = ids;
      }))

unfoldable pub model_manifest : Fields → CommonMetadata → Option ResultManifest
model_manifest v common = do
  _ ← bounded_integer 1 1 (property "version" v)
  artifact_id ← id_of (property "artifactId" v)
  artifact_sha256 ← sha256_of (property "artifactSha256" v)
  bytes ←
      bounded_integer fixed_header_bytes max_sat_model_artifact_bytes (property "artifactBytes" v)
  count ← bounded_integer 0 max_variables (property "variableCount" v)
  some (
      ResultManifest.sat_model (record {
        common = common;
        artifact_id = artifact_id;
        artifact_sha256 = artifact_sha256;
        artifact_bytes = bytes;
        variable_count = count;
      }))

pub data Kind : Type 0 where
  model_v1 candidate_v1 proof_v1 : Kind

abbrev kinds : List (String × Kind)
kinds =
    ("UNSAT_CANDIDATE_V1", Kind.candidate_v1)
    ∷ ("UNSAT_PROOF_V1", Kind.proof_v1)
    ∷ ("SAT_MODEL_V1", Kind.model_v1)
    ∷ []

unfoldable pub manifest_of_kind : Fields → CommonMetadata → Kind → Option ResultManifest
unfolding proof_manifest model_manifest
manifest_of_kind v common Kind.candidate_v1 = some (ResultManifest.unsat_candidate common)
manifest_of_kind v common Kind.proof_v1 = proof_manifest v common
manifest_of_kind v common Kind.model_v1 = model_manifest v common

-- `parseResultManifest`
unfoldable pub parse_result_manifest : Option Json → Option ResultManifest
unfolding manifest_of_kind
parse_result_manifest j = do
  v ← fields_of j
  common ← common_metadata v
  kind ← one_of kinds (property "kind" v)
  manifest_of_kind v common kind
