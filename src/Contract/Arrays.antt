-- ===== src/Contract/Arrays.antt =====
-- Arrays as parameters: integers in a static and in a dynamic array, and texts in a static array.
use iotex_arduino.Base.{ℕ, suc, ◌+◌, ◌*◌, ◌%◌, ◌^◌, ◌<◌, ◌≡◌, refl, sym, ap, ◌∙◌}
use iotex_arduino.Base.{arith, All, List, [], ◌∷◌, ◌++◌, false, some}
use iotex_arduino.Base.{length, append_assoc, append-nil}
use iotex_arduino.Abi.{EthereumTypeName, ParameterValue, parameter, elements, Elements}
use iotex_arduino.Abi.{none_left, element, make_param_uint, stored}
use iotex_arduino.Abi.{parameter_is_dynamic}
use iotex_arduino.Contract.Words.{generate_bytes_for_uint}
use iotex_arduino.Contract.BigEndian.{big_endian, uint_word}
use iotex_arduino.Contract.Params.{Emission, generate_flat}
use iotex_arduino.Contract.Params.{generate_bytes_for_simple_type, generate_bytes_for_parameter}
use iotex_arduino.Contract.Params.{generate_static_elements}
use iotex_arduino.Contract.Params.{not_positive, first_is_dynamic}

abbrev pub uint_elements : List ℕ → Elements
uint_elements [] = none_left
uint_elements (v ∷ values) = element (make_param_uint v) (uint_elements values)

abbrev pub words : List ℕ → List ℕ
words [] = []
words (v ∷ values) = big_endian 32 v ++ words values

uint_parameter :
    (v : ℕ) (buffer : List ℕ)
    → v < 2 ^ 64
    → generate_bytes_for_parameter (make_param_uint v) EthereumTypeName.uint buffer
      ≡ some (32, buffer ++ big_endian 32 v)
unfolding generate_bytes_for_parameter generate_flat generate_bytes_for_simple_type make_param_uint
uint_parameter v buffer h = rw (uint_word 8 v (omega arith) h)

static_elements-step :
    (n m : ℕ) (p : ParameterValue) (rest : Elements) (buffer next final : List ℕ)
    → p ≡ make_param_uint n
    → generate_bytes_for_parameter p EthereumTypeName.uint buffer ≡ some (32, next)
    → generate_static_elements m rest next ≡ some (32 * m % 2 ^ 32, final)
    → generate_static_elements (suc m) (element (make_param_uint n) rest) buffer
      ≡ some (32 * suc m % 2 ^ 32, final)
unfolding generate_static_elements make_param_uint
static_elements-step n m p rest buffer next final e first others = ground (arith, e, first, others)

uint_elements_lem :
    (values buffer : List ℕ)
    → All (λ v. v < 2 ^ 64) values
    → generate_static_elements (length values) (uint_elements values) buffer
      ≡ some (32 * length values % 2 ^ 32, buffer ++ words values)
uint_elements_lem [] buffer h =
    unfold generate_static_elements in ap (λ t. some (0, t)) (sym (append-nil buffer))
uint_elements_lem (v ∷ values) buffer (h, hs) =
    static_elements-step v (length values) (make_param_uint v) (uint_elements values) buffer
      (buffer ++ big_endian 32 v) ((buffer ++ big_endian 32 v) ++ words values) refl
      (uint_parameter v buffer h) (uint_elements_lem values (buffer ++ big_endian 32 v) hs)
    ∙ ap (λ t. some (32 * suc (length values) % 2 ^ 32, t))
        (append_assoc buffer (big_endian 32 v) (words values))

first_uint : (v : ℕ) (values : List ℕ) → first_is_dynamic (uint_elements (v ∷ values)) ≡ false
unfolding parameter_is_dynamic make_param_uint
first_uint v values = refl

pub small_positive : (n : ℕ) → suc n < 2 ^ 31 → not_positive (suc n) ≡ false
small_positive n h = ground arith

static_array-step :
    (items : Elements) (size : ℕ) (buffer : List ℕ) (e : Emission)
    → not_positive size ≡ false
    → first_is_dynamic items ≡ false
    → generate_static_elements size items buffer ≡ some e
    → generate_bytes_for_parameter
        (parameter (elements items) size false EthereumTypeName.array_static)
        EthereumTypeName.array_static
        buffer
      ≡ some e
unfolding generate_bytes_for_parameter
static_array-step items size buffer e p f h = rw p (rw f h)

dynamic_array-step :
    (items : Elements) (size m : ℕ) (buffer word final : List ℕ)
    → not_positive size ≡ false
    → first_is_dynamic items ≡ false
    → generate_bytes_for_uint (stored 4 size) 4 ≡ some word
    → generate_static_elements size items (buffer ++ word) ≡ some (m, final)
    → generate_bytes_for_parameter
        (parameter (elements items) size false EthereumTypeName.array_dynamic)
        EthereumTypeName.array_dynamic
        buffer
      ≡ some ((32 + m) % 2 ^ 32, final)
unfolding generate_bytes_for_parameter
dynamic_array-step items size m buffer word final p f w h = rw p (rw f (rw w (rw h refl)))

-- On a non-empty list of fewer than 2 ^ 26 integers below 2 ^ 64, as a static array,
-- generateBytesForParameter appends the word of each in order and returns 32 bytes for each.
pub static_array_lem :
    (v : ℕ) (values buffer : List ℕ)
    → suc (length values) < 2 ^ 26
    → All (λ x. x < 2 ^ 64) (v ∷ values)
    → generate_bytes_for_parameter
        (parameter
          (elements (uint_elements (v ∷ values)))
          (suc (length values))
          false
          EthereumTypeName.array_static)
        EthereumTypeName.array_static
        buffer
      ≡ some (32 * suc (length values), buffer ++ words (v ∷ values))
static_array_lem v values buffer small h =
    static_array-step (uint_elements (v ∷ values)) (suc (length values)) buffer _
      (small_positive (length values) (omega arith)) (first_uint v values)
      (uint_elements_lem (v ∷ values) buffer h)
    ∙ ap (λ n. some (n, buffer ++ words (v ∷ values))) (omega arith)

-- On a non-empty list of fewer than 2 ^ 26 integers below 2 ^ 64, as a dynamic array,
-- generateBytesForParameter appends the word of their number and the word of each in order, and
-- returns 32 bytes for each word.
pub dynamic_array_lem :
    (v : ℕ) (values buffer : List ℕ)
    → suc (length values) < 2 ^ 26
    → All (λ x. x < 2 ^ 64) (v ∷ values)
    → generate_bytes_for_parameter
        (parameter
          (elements (uint_elements (v ∷ values)))
          (suc (length values))
          false
          EthereumTypeName.array_dynamic)
        EthereumTypeName.array_dynamic
        buffer
      ≡ some (
        32 * suc (suc (length values)),
        buffer ++ (big_endian 32 (suc (length values)) ++ words (v ∷ values)),
      )
dynamic_array_lem v values buffer small h =
    let size = suc (length values) in
    let word = big_endian 32 size in
    dynamic_array-step (uint_elements (v ∷ values)) size _ buffer word _
      (small_positive (length values) (omega arith)) (first_uint v values)
      (uint_word 4 size (omega arith) (omega arith))
      (uint_elements_lem (v ∷ values) (buffer ++ word) h)
    ∙ ap (λ n. some (n, (buffer ++ word) ++ words (v ∷ values))) (omega arith)
    ∙ ap (λ t. some (32 * suc size, t)) (append_assoc buffer word (words (v ∷ values)))
