-- ===== src/Protocol/Manifest/WellFormed.antt =====
-- What `parseResultManifest` of shared/result-manifest.ts ensures.
use hive_sat.Prelude.{
  ◌≡◌, ◌≤◌, ◌∙◌, true, List, Option, some, All, length, leb, leb→le, ◌==◌, ==_iff, ℤ, arith,
}
use hive_sat.Limits.{max_clauses, max_variables}
use hive_sat.Protocol.Json.{
  Json, Fields, property, is_version, array_of, bounded_integer, literal_of, each,
}
use hive_sat.Protocol.Json.Ensures.{
  Ensures, bind-Ensures, guard-Ensures, both-Ensures, anything, IsId, IsSha256, IsLiteral, Between,
  text_of-Ensures, id_of-IsId, sha256_of-IsSha256, bounded_integer-Between, literal_of-IsLiteral,
  each-Ensures, each-length,
}
use hive_sat.Protocol.Manifest.{
  CommonMetadata, SatResultManifest, UnsatProofManifest, ResultManifest, cube_of,
  distinct_variables, common_metadata, ids_from, proof_manifest, model_manifest, Kind,
  manifest_of_kind, parse_result_manifest, max_proof_compressed_bytes, max_proof_decompressed_bytes,
  max_sat_model_artifact_bytes, fixed_header_bytes, max_safe_integer,
}

-- At most 64 literals of distinct variables.
abbrev pub IsCube : List ℤ → Type 0
IsCube cube = (length cube ≤ 64) × All IsLiteral cube × (distinct_variables cube ≡ true)

pub record IsCommon (m : CommonMetadata) : Type 0 where
  pub formula_hash : IsSha256 m.formula_hash
  pub task_id : IsId m.task_id
  pub cube : IsCube m.cube
  pub path_hash : IsSha256 m.path_hash
  pub solver_version : is_version m.solver_version ≡ true

pub record IsModelManifest (m : SatResultManifest) : Type 0 where
  pub common : IsCommon m.common
  pub artifact_id : IsId m.artifact_id
  pub artifact_sha256 : IsSha256 m.artifact_sha256
  pub artifact_bytes : Between fixed_header_bytes max_sat_model_artifact_bytes m.artifact_bytes
  pub variable_count : m.variable_count ≤ max_variables

-- The clauses of the cube are numbered from the formula's on.
pub record IsProofManifest (m : UnsatProofManifest) : Type 0 where
  pub common : IsCommon m.common
  pub artifact_id : IsId m.artifact_id
  pub artifact_sha256 : IsSha256 m.artifact_sha256
  pub compressed_bytes : Between 1 max_proof_compressed_bytes m.compressed_bytes
  pub decompressed_bytes : Between 1 max_proof_decompressed_bytes m.decompressed_bytes
  pub original_clause_count : m.original_clause_count ≤ max_clauses
  pub clause_for_each_literal : length m.cube_clause_ids ≡ length m.common.cube
  pub numbered : ids_from m.original_clause_count m.cube_clause_ids ≡ true

abbrev pub IsManifest : ResultManifest → Type 0
IsManifest (ResultManifest.sat_model m) = IsModelManifest m
IsManifest (ResultManifest.unsat_candidate m) = IsCommon m
IsManifest (ResultManifest.unsat_proof m) = IsProofManifest m

cube_of-IsCube : (j : Option Json) → Ensures IsCube (cube_of j)
unfolding cube_of
cube_of-IsCube j =
    bind-Ensures (λ js. Unit {0}) IsCube (array_of j) _ (anything (array_of j))
      λ js _. guard-Ensures IsCube (leb (length js) 64) _ λ few.
        bind-Ensures (λ c. All IsLiteral c × (length c ≡ length js)) IsCube (each literal_of js) _
          (both-Ensures (All IsLiteral) (λ c. length c ≡ length js) (each literal_of js)
            (each-Ensures IsLiteral literal_of literal_of-IsLiteral js) (each-length literal_of js))
          λ c h.
            guard-Ensures IsCube (distinct_variables c) (some c)
              λ distinct. (omega (arith, leb→le (length js) 64 few, h.1), h.0, distinct)

common_metadata-IsCommon : (v : Fields) → Ensures IsCommon (common_metadata v)
unfolding common_metadata
common_metadata-IsCommon v =
    bind-Ensures IsSha256 IsCommon _ _ (sha256_of-IsSha256 (property "formulaHash" v)) λ hash h.
      bind-Ensures IsId IsCommon _ _ (id_of-IsId (property "taskId" v)) λ task t.
        bind-Ensures IsCube IsCommon _ _ (cube_of-IsCube (property "cube" v)) λ cube c.
          bind-Ensures IsSha256 IsCommon _ _ (sha256_of-IsSha256 (property "pathHash" v)) λ path p.
            bind-Ensures (λ s. is_version s ≡ true) IsCommon _ _
              (text_of-Ensures is_version (property "solverVersion" v))
              λ version s. record {
                formula_hash = h;
                task_id = t;
                cube = c;
                path_hash = p;
                solver_version = s;
              }

proof_manifest-IsManifest :
    (v : Fields) (common : CommonMetadata)
    → IsCommon common
    → Ensures IsManifest (proof_manifest v common)
unfolding proof_manifest
proof_manifest-IsManifest v common c =
    bind-Ensures (λ n. Unit {0}) IsManifest _ _ (anything _)
      λ _ _. bind-Ensures IsId IsManifest _ _ (id_of-IsId (property "artifactId" v)) λ artifact a.
        bind-Ensures IsSha256 IsManifest _ _ (sha256_of-IsSha256 (property "artifactSha256" v))
          λ sha s.
            bind-Ensures (Between 1 max_proof_compressed_bytes) IsManifest _ _
              (bounded_integer-Between 1 max_proof_compressed_bytes (property "compressedBytes" v))
              λ compressed z.
                bind-Ensures (Between 1 max_proof_decompressed_bytes) IsManifest _ _
                  (bounded_integer-Between 1 max_proof_decompressed_bytes
                    (property "decompressedBytes" v))
                  λ decompressed d.
                    bind-Ensures (Between 0 max_clauses) IsManifest _ _
                      (bounded_integer-Between 0 max_clauses (property "originalClauseCount" v))
                      λ count n.
                        bind-Ensures (λ js. Unit {0}) IsManifest _ _ (anything _)
                          λ js _.
                            guard-Ensures IsManifest (length js == length common.cube) _ λ same.
                              bind-Ensures (λ ids. length ids ≡ length js) IsManifest _ _
                                (each-length (bounded_integer 0 max_safe_integer) js)
                                λ ids e. guard-Ensures IsManifest (ids_from count ids) _ λ numbered.
                                  bind-Ensures (λ u. Unit {0}) IsManifest _ _ (anything _)
                                    λ _ _. record {
                                      common = c;
                                      artifact_id = a;
                                      artifact_sha256 = s;
                                      compressed_bytes = z;
                                      decompressed_bytes = d;
                                      original_clause_count = n.1;
                                      clause_for_each_literal =
                                          e ∙ (==_iff (length js) (length common.cube)).0 same;
                                      numbered = numbered;
                                    }

model_manifest-IsManifest :
    (v : Fields) (common : CommonMetadata)
    → IsCommon common
    → Ensures IsManifest (model_manifest v common)
unfolding model_manifest
model_manifest-IsManifest v common c =
    bind-Ensures (λ n. Unit {0}) IsManifest _ _ (anything _)
      λ _ _. bind-Ensures IsId IsManifest _ _ (id_of-IsId (property "artifactId" v)) λ artifact a.
        bind-Ensures IsSha256 IsManifest _ _ (sha256_of-IsSha256 (property "artifactSha256" v))
          λ sha s.
            bind-Ensures (Between fixed_header_bytes max_sat_model_artifact_bytes) IsManifest _ _
              (bounded_integer-Between fixed_header_bytes max_sat_model_artifact_bytes
                (property "artifactBytes" v))
              λ bytes b.
                bind-Ensures (Between 0 max_variables) IsManifest _ _
                  (bounded_integer-Between 0 max_variables (property "variableCount" v))
                  λ count n. record {
                    common = c;
                    artifact_id = a;
                    artifact_sha256 = s;
                    artifact_bytes = b;
                    variable_count = n.1;
                  }

manifest_of_kind-IsManifest :
    (v : Fields) (common : CommonMetadata) (kind : Kind)
    → IsCommon common
    → Ensures IsManifest (manifest_of_kind v common kind)
unfolding manifest_of_kind
manifest_of_kind-IsManifest v common Kind.candidate_v1 c = c
manifest_of_kind-IsManifest v common Kind.proof_v1 c = proof_manifest-IsManifest v common c
manifest_of_kind-IsManifest v common Kind.model_v1 c = model_manifest-IsManifest v common c

-- A manifest that is accepted has ids and hashes of their form, a cube of distinct variables, sizes
-- within the limits, and a clause for each literal of the cube, numbered from the formula's on.
pub parse_result_manifest-IsManifest :
    (j : Option Json) → Ensures IsManifest (parse_result_manifest j)
unfolding parse_result_manifest
parse_result_manifest-IsManifest j =
    bind-Ensures (λ v. Unit {0}) IsManifest _ _ (anything _)
      λ v _. bind-Ensures IsCommon IsManifest _ _ (common_metadata-IsCommon v) λ common c.
        bind-Ensures (λ k. Unit {0}) IsManifest _ _ (anything _)
          λ kind _. manifest_of_kind-IsManifest v common kind c
