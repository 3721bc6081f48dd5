-- ===== src/TypeSpecs.antt =====
-- src/TLS/TypeSpecs.ts: the specs that describe how a struct is laid out.
use Prim.Native.String.{String}
use node_dtls_client.Prelude.{ℕ, Bool, not, ◌==◌}

pub data Numbers : Type 0 where
  uint8 uint16 uint24 uint32 uint48 uint64 : Numbers

-- The number behind "uint", in bits.
abbrev pub get_primitive_size : Numbers → ℕ
get_primitive_size uint8 = 8
get_primitive_size uint16 = 16
get_primitive_size uint24 = 24
get_primitive_size uint32 = 32
get_primitive_size uint48 = 48
get_primitive_size uint64 = 64

-- A vector stands here once for each kind of item that `Complex` allows: `number_vector` for
-- numbers and enums, `struct_vector` for structs. A struct type is given by its fields. `buffer`
-- has finite limits; `unbound` is `define.Buffer()`, whose limits are both infinite.
mutual
  pub data Spec : Type 0 where
    number : Numbers → Spec
    enum : Numbers → Spec
    struct : Fields → Spec
    number_vector : Numbers → ℕ → ℕ → Bool → Spec
    struct_vector : Fields → ℕ → ℕ → Bool → Spec
    buffer : ℕ → ℕ → Spec
    unbound : Spec

  pub data Fields : Type 0 where
    end : Fields
    field : String → Spec → Fields → Fields

-- `isVariableLength`, of vectors and of buffers.
abbrev pub is_variable_length : ℕ → ℕ → Bool
is_variable_length min_length max_length = not (max_length == min_length)
