-- ===== src/Core/KvLayout.antt =====
-- crates/core/src/lib.rs, `KvCacheLayout`: the shape of a key/value cache and where in the flat
-- storage a position of a layer lies.
pub mod Offsets
use ocelotl.Common.{ℕ, ◌+◌, ◌≡◌, refl, Bool, List, [], ◌∷◌, String, leb, ◌==◌, if◌then◌else◌}
use ocelotl.Core.Errors.{Result, ok, err, ◌>>=◌, ok_or, runtime_err}
use ocelotl.Core.Words.{checked_add, try_product}

pub data Device : Type 0 where
  cpu : Device
  gpu : ℕ → Device

pub data DType : Type 0 where
  f32 f16 bf16 q4 q8 : DType

pub record KvCacheLayout : Type 0 where
  pub num_layers : ℕ
  pub num_key_value_heads : ℕ
  pub capacity_tokens : ℕ
  pub head_dim : ℕ
  pub dtype : DType
  pub device : Device

-- The label of the message is left out with the other values that the message prints.
unfoldable pub checked_product : List ℕ → Result ℕ
checked_product dims =
    ok_or (try_product 1 dims) (runtime_err "{label} overflowed usize for dims {dims:?}")

unfoldable pub new : ℕ → ℕ → ℕ → ℕ → DType → Device → Result KvCacheLayout
new num_layers num_key_value_heads capacity_tokens head_dim dtype device =
    if num_layers == 0
    then err (runtime_err "kv cache num_layers must be > 0")
    else (if num_key_value_heads == 0
        then err (runtime_err "kv cache num_key_value_heads must be > 0")
        else (if capacity_tokens == 0
            then err (runtime_err "kv cache capacity_tokens must be > 0")
            else (if head_dim == 0
                then err (runtime_err "kv cache head_dim must be > 0")
                else ok (record {
                  num_layers = num_layers;
                  num_key_value_heads = num_key_value_heads;
                  capacity_tokens = capacity_tokens;
                  head_dim = head_dim;
                  dtype = dtype;
                  device = device;
                }))))

unfoldable pub values_per_position : KvCacheLayout → Result ℕ
values_per_position l = checked_product (l.num_key_value_heads ∷ l.head_dim ∷ [])

unfoldable pub values_per_layer_tensor : KvCacheLayout → Result ℕ
values_per_layer_tensor l =
    checked_product (l.capacity_tokens ∷ l.num_key_value_heads ∷ l.head_dim ∷ [])

unfoldable pub values_per_all_key_tensors : KvCacheLayout → Result ℕ
values_per_all_key_tensors l =
    checked_product (l.num_layers ∷ l.capacity_tokens ∷ l.num_key_value_heads ∷ l.head_dim ∷ [])

unfoldable pub total_values : KvCacheLayout → Result ℕ
total_values l = do values ← values_per_all_key_tensors l; checked_product (2 ∷ values ∷ [])

abbrev pub dtype_bytes : DType → ℕ
dtype_bytes DType.f32 = 4
dtype_bytes DType.f16 = 2
dtype_bytes DType.bf16 = 2
dtype_bytes DType.q4 = 1
dtype_bytes DType.q8 = 1

unfoldable pub bytes_per_value : KvCacheLayout → ℕ
bytes_per_value l = dtype_bytes l.dtype

unfoldable pub total_bytes : KvCacheLayout → Result ℕ
total_bytes l = do values ← total_values l; checked_product (values ∷ bytes_per_value l ∷ [])

unfoldable pub layer_position_offset : KvCacheLayout → ℕ → ℕ → Result ℕ
layer_position_offset l layer position =
    if leb l.num_layers layer
    then err (runtime_err "kv cache layer {layer} out of range for {} layers")
    else (if leb l.capacity_tokens position
        then err (runtime_err "kv cache position {position} out of range for capacity {}")
        else do
          layer_values ← values_per_layer_tensor l
          layer_base ← checked_product (layer ∷ layer_values ∷ [])
          width ← values_per_position l
          position_base ← checked_product (position ∷ width ∷ [])
          ok_or (checked_add layer_base position_base)
              (runtime_err "kv cache layer position offset overflowed usize"))
