-- ===== src/Loader/Gguf/Tokenizer.antt =====
-- crates/loader/src/gguf_inspect.rs, `inspect_gguf_tokenizer_with_limits`: the tokenizer's metadata of
-- a GGUF file. The float and integer arrays hold bit patterns.
pub mod Lockstep
pub mod Skipped
use ocelotl.Common.{
  ℕ, zero, suc, ◌*◌, ◌<◌, ◌^◌, Bool, true, false, Option, none, some, List, [], ◌∷◌, String, ltb,
  if◌then◌else◌, length,
}
use ocelotl.Core.Errors
use ocelotl.Core.Errors.{Result, ok, err, panic}
use ocelotl.Core.Words.{checked_mul}
use ocelotl.Core.ArtifactLimits.{ArtifactLimits}
use ocelotl.Core.ArtifactLimits
use ocelotl.Loader.Gguf.Types.{
  codes, same_text, invalid_gguf, GgufMetadataType, GgufMetadataValue, type_from_raw,
}
use ocelotl.Loader.Gguf.Reader.{
  GgufReader, Reading, ◌>>=◌, ◌>>◌, done, failed, lift, read_u32, read_u64, collect,
  remaining_bounded_header_bytes,
}
use ocelotl.Loader.Gguf.Values.{
  try_reserve_exact, read_string, read_array_header, read_metadata_value, skip_metadata_value,
}
use ocelotl.Loader.Gguf.Inspect.{min_metadata_entry_bytes, read_magic, read_version}
use ocelotl.Loader.Gguf.Manifest.{opened_reader, manifest_of}

pub record GgufTokenizerMetadata : Type 0 where
  pub model : Option (List ℕ)
  pub tokens : List (List ℕ)
  pub scores : List ℕ
  pub token_types : List ℕ
  pub merges : List (List ℕ)
  pub chat_template : Option (List ℕ)
  pub bos_token_id : Option ℕ
  pub eos_token_id : Option ℕ
  pub unknown_token_id : Option ℕ
  pub padding_token_id : Option ℕ
  pub mask_token_id : Option ℕ
  pub add_bos_token : Option Bool
  pub add_space_prefix : Option Bool

abbrev pub no_metadata : GgufTokenizerMetadata
no_metadata = record {
  model = none;
  tokens = [];
  scores = [];
  token_types = [];
  merges = [];
  chat_template = none;
  bos_token_id = none;
  eos_token_id = none;
  unknown_token_id = none;
  padding_token_id = none;
  mask_token_id = none;
  add_bos_token = none;
  add_space_prefix = none;
}

abbrev pub token_count : GgufTokenizerMetadata → ℕ
token_count m = length m.tokens

-- The arms of the `match` on a key.
pub data TokenizerKey : Type 0 where
  tokens scores token_type merges model chat_template bos_token_id eos_token_id unknown_token_id
        padding_token_id mask_token_id add_bos_token add_space_prefix other :
      TokenizerKey

unfoldable pub key_arm : List ℕ → TokenizerKey
key_arm key =
    if same_text key (codes "tokenizer.ggml.tokens")
    then TokenizerKey.tokens
    else (if same_text key (codes "tokenizer.ggml.scores")
        then TokenizerKey.scores
        else (if same_text key (codes "tokenizer.ggml.token_type")
            then TokenizerKey.token_type
            else (if same_text key (codes "tokenizer.ggml.merges")
                then TokenizerKey.merges
                else (if same_text key (codes "tokenizer.ggml.model")
                    then TokenizerKey.model
                    else (if same_text key (codes "tokenizer.chat_template")
                        then TokenizerKey.chat_template
                        else (if same_text key (codes "tokenizer.ggml.bos_token_id")
                            then TokenizerKey.bos_token_id
                            else (if same_text key (codes "tokenizer.ggml.eos_token_id")
                                then TokenizerKey.eos_token_id
                                else (if same_text key (codes "tokenizer.ggml.unknown_token_id")
                                    then TokenizerKey.unknown_token_id
                                    else (if same_text key (codes "tokenizer.ggml.padding_token_id")
                                        then TokenizerKey.padding_token_id
                                        else (if same_text key
                                              (codes "tokenizer.ggml.mask_token_id")
                                            then TokenizerKey.mask_token_id
                                            else (if same_text key
                                                  (codes "tokenizer.ggml.add_bos_token")
                                                then TokenizerKey.add_bos_token
                                                else (if same_text key
                                                      (codes "tokenizer.ggml.add_space_prefix")
                                                    then TokenizerKey.add_space_prefix
                                                    else TokenizerKey.other))))))))))))

unfoldable pub expect_metadata_string : Option String → GgufMetadataValue → Result (List ℕ)
expect_metadata_string path (GgufMetadataValue.string value) = ok value
expect_metadata_string path value =
    err (invalid_gguf path "{key}" "GGUF metadata `{key}` must be a string, got {other:?}")

unfoldable pub expect_metadata_u32 : Option String → GgufMetadataValue → Result ℕ
expect_metadata_u32 path (GgufMetadataValue.u32 value) = ok value
expect_metadata_u32 path (GgufMetadataValue.u64 value) =
    if ltb value (2 ^ 32)
    then ok value
    else err (invalid_gguf path "{key}" "GGUF metadata `{key}` value {value} does not fit in u32")
expect_metadata_u32 path value =
    err (invalid_gguf path "{key}" "GGUF metadata `{key}` must be a uint32, got {other:?}")

unfoldable pub expect_metadata_bool : Option String → GgufMetadataValue → Result Bool
expect_metadata_bool path (GgufMetadataValue.bool value) = ok value
expect_metadata_bool path value =
    err (invalid_gguf path "{key}" "GGUF metadata `{key}` must be a bool, got {other:?}")

-- `==` on types of metadata, where the second is one that is asked for.
unfoldable pub same_type : GgufMetadataType → GgufMetadataType → Bool
same_type GgufMetadataType.string GgufMetadataType.string = true
same_type GgufMetadataType.f32 GgufMetadataType.f32 = true
same_type GgufMetadataType.i32 GgufMetadataType.i32 = true
same_type _ _ = false

unfoldable pub expect_array_element_type : GgufMetadataType → GgufMetadataType → Reading ℕ
expect_array_element_type GgufMetadataType.array expected = do
  header ← λ r. read_array_header r.limits.max_array_depth r
  if same_type (header.0) expected
      then done (header.1)
      else failed "{key}"
          "GGUF metadata `{key}` array must contain {expected:?}, got {element_type:?}"
expect_array_element_type value_type expected =
    failed "{key}" "GGUF metadata `{key}` must be an array, got {value_type:?}"

unfoldable pub validate_declared_metadata_count_fits_remaining : GgufReader → ℕ → Result (Unit {0})
validate_declared_metadata_count_fits_remaining r metadata_count =
    elim (checked_mul metadata_count min_metadata_entry_bytes) [
      | none ↦ err (
          invalid_gguf r.path "header_counts" "GGUF minimum metadata descriptor bytes overflow u64")
      | some minimum_bytes ↦
          if ltb (remaining_bounded_header_bytes r) minimum_bytes
          then err (
              invalid_gguf r.path "header_counts"
                "GGUF metadata count requires at least {minimum_bytes} minimum entry bytes; remaining bounded header bytes: {remaining}")
          else ok tt
    ]

-- The number of metadata entries.
unfoldable pub read_metadata_count : Reading ℕ
read_metadata_count = do
  tensor_count ← read_u64
  metadata_count ← read_u64
  (λ r. lift (ArtifactLimits.validate_gguf_counts r.limits r.path tensor_count metadata_count) r)
  (λ r. lift (validate_declared_metadata_count_fits_remaining r metadata_count) r)
  done metadata_count

module _ (is_utf8 : List ℕ → Bool) (can_reserve : String → ℕ → Bool) where
  -- The body of `read_metadata_string_array`, `.._f32_array` and `.._i32_array`.
  unfoldable pub read_metadata_array :
      {A : Type 0} → GgufMetadataType → Reading A → GgufMetadataType → Reading (List A)
  read_metadata_array expected read value_type = do
    len ← expect_array_element_type value_type expected
    try_reserve_exact is_utf8 can_reserve "{key}" len
    collect len read

  unfoldable pub read_metadata_string_array : GgufMetadataType → Reading (List (List ℕ))
  read_metadata_string_array =
      read_metadata_array GgufMetadataType.string
        (λ r. read_string is_utf8 can_reserve "{key}" r.limits.max_metadata_string_bytes r)

  unfoldable pub read_metadata_f32_array : GgufMetadataType → Reading (List ℕ)
  read_metadata_f32_array = read_metadata_array GgufMetadataType.f32 read_u32

  unfoldable pub read_metadata_i32_array : GgufMetadataType → Reading (List ℕ)
  read_metadata_i32_array = read_metadata_array GgufMetadataType.i32 read_u32

  -- A value, and what is expected of it.
  unfoldable pub read_expected :
      {A : Type 0} → (Option String → GgufMetadataValue → Result A) → GgufMetadataType → Reading A
  read_expected expect value_type = do
    value ← λ r. read_metadata_value is_utf8 can_reserve r.limits.max_array_depth value_type r
    λ r. lift (expect r.path value) r

  -- The `match` on the key.
  unfoldable pub read_arm :
      TokenizerKey → GgufMetadataType → GgufTokenizerMetadata → Reading GgufTokenizerMetadata
  read_arm TokenizerKey.tokens t m =
      read_metadata_string_array t >>= λ values. done (record m { tokens = values })
  read_arm TokenizerKey.scores t m =
      read_metadata_f32_array t >>= λ values. done (record m { scores = values })
  read_arm TokenizerKey.token_type t m =
      read_metadata_i32_array t >>= λ values. done (record m { token_types = values })
  read_arm TokenizerKey.merges t m =
      read_metadata_string_array t >>= λ values. done (record m { merges = values })
  read_arm TokenizerKey.model t m =
      read_expected expect_metadata_string t >>= λ v. done (record m { model = some v })
  read_arm TokenizerKey.chat_template t m =
      read_expected expect_metadata_string t >>= λ v. done (record m { chat_template = some v })
  read_arm TokenizerKey.bos_token_id t m =
      read_expected expect_metadata_u32 t >>= λ v. done (record m { bos_token_id = some v })
  read_arm TokenizerKey.eos_token_id t m =
      read_expected expect_metadata_u32 t >>= λ v. done (record m { eos_token_id = some v })
  read_arm TokenizerKey.unknown_token_id t m =
      read_expected expect_metadata_u32 t >>= λ v. done (record m { unknown_token_id = some v })
  read_arm TokenizerKey.padding_token_id t m =
      read_expected expect_metadata_u32 t >>= λ v. done (record m { padding_token_id = some v })
  read_arm TokenizerKey.mask_token_id t m =
      read_expected expect_metadata_u32 t >>= λ v. done (record m { mask_token_id = some v })
  read_arm TokenizerKey.add_bos_token t m =
      read_expected expect_metadata_bool t >>= λ v. done (record m { add_bos_token = some v })
  read_arm TokenizerKey.add_space_prefix t m =
      read_expected expect_metadata_bool t >>= λ v. done (record m { add_space_prefix = some v })
  read_arm TokenizerKey.other t m =
      (λ r. skip_metadata_value r.limits.max_array_depth t r) >> done m

  unfoldable pub read_tokenizer_entry : GgufTokenizerMetadata → Reading GgufTokenizerMetadata
  read_tokenizer_entry m = do
    key ← λ r. read_string is_utf8 can_reserve "metadata key" r.limits.max_key_bytes r
    raw_type ← read_u32
    value_type ← λ r. lift (type_from_raw r.path "{key}" raw_type) r
    read_arm (key_arm key) value_type m

  unfoldable pub read_tokenizer_entries : ℕ → GgufTokenizerMetadata → Reading GgufTokenizerMetadata
  read_tokenizer_entries zero m = done m
  read_tokenizer_entries (suc n) m = read_tokenizer_entry m >>= read_tokenizer_entries n

  unfoldable pub read_tokenizer : Reading GgufTokenizerMetadata
  read_tokenizer = do
    read_magic
    version ← read_version
    metadata_count ← read_metadata_count
    read_tokenizer_entries metadata_count no_metadata

  unfoldable pub inspect_gguf_tokenizer_with_limits :
      String → Result (List ℕ) → ArtifactLimits → Result GgufTokenizerMetadata
  inspect_gguf_tokenizer_with_limits path opened limits =
      Errors.◌>>◌ (ArtifactLimits.validate limits) (
        Errors.◌>>=◌ opened λ bytes.
          Errors.◌>>◌ (ArtifactLimits.validate_file_bytes limits (some path) (length bytes))
            (Errors.◌>>=◌ (read_tokenizer (opened_reader path bytes limits)) manifest_of))
