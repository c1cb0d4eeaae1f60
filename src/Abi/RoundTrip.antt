-- ===== src/Abi/RoundTrip.antt =====
-- getTypeAndSizeFromString reads the type that getSignature prints.
use iotex_arduino.Base.{print_int, ℕ, ◌*◌, ◌%◌, ◌^◌, ◌<◌, ◌≡◌, refl, sym, ap, ◌∙◌}
use iotex_arduino.Base.{arith, List, [], ◌∷◌, ◌++◌, false, some, codes}
use iotex_arduino.Base.{decimal, strip_prefix, append_assoc}
use iotex_arduino.ResultCode.{success}
use iotex_arduino.Abi.{EthereumTypeName, InputOutputAbi, bytes_static, array_static, array_dynamic}
use iotex_arduino.Abi.Signature.{is_integer_type, type_name_to_string, type_suffix, input_text}
use iotex_arduino.Abi.Signature.{array_text, array_type_size}
use iotex_arduino.Abi.TypeText.{check_array, has_size, get_size_and_check_if_array}
use iotex_arduino.Abi.TypeText.{match_named, match_bytes, match_string}
use iotex_arduino.Abi.TypeText.{get_type_and_size_from_string}
use iotex_arduino.Abi.SizeText.{EndsSize, by_digits, sized_lem}
use iotex_arduino.Abi.Canonical.{Scalar, uint_scalar, int_scalar, bytes_scalar, address_scalar}
use iotex_arduino.Abi.Canonical.{bool_scalar, string_scalar, bytes_dynamic_scalar, AbiType, scalar}
use iotex_arduino.Abi.Canonical.{dynamic_array, static_array, IsScalar, IsAbiType, set_scalar}
use iotex_arduino.Abi.Canonical.{abi_of, scalar_text, type_text, array_end, scalar_of}
use iotex_arduino.Abi.Canonical.{check_array_end, type_text_lem, EndsWell}

bytes_sized :
    (n : ℕ) (end : List ℕ) (out : InputOutputAbi)
    → n < 1000
    → match_bytes (codes "bytes" ++ (decimal n ++ end)) out
      ≡ get_size_and_check_if_array (decimal n ++ end) (record out { type = bytes_static })
unfolding match_bytes strip_prefix
bytes_sized n end out h =
    by_digits
      (λ s.
        match_bytes (codes "bytes" ++ (s ++ end)) out
        ≡ get_size_and_check_if_array (s ++ end) (record out { type = bytes_static }))
      n h (λ a. ground arith) (λ a b. ground arith) (λ a. ground arith)

bytes_array :
    (c : ℕ) (end : List ℕ) (out : InputOutputAbi)
    → c ≡ b'['
    → match_bytes (codes "bytes" ++ (c ∷ end)) out
      ≡ get_size_and_check_if_array (c ∷ end) (record out { type = EthereumTypeName.bytes_dynamic })
unfolding match_bytes strip_prefix
bytes_array c end out e = ground (arith, e)

unsized :
    (end : List ℕ) (out : InputOutputAbi)
    → has_size out.type ≡ false
    → is_integer_type out.type ≡ false
    → get_size_and_check_if_array end out ≡ check_array end out
unfolding get_size_and_check_if_array
unsized end out h i = ground (arith, h, i)

pub parse_scalar :
    (s : Scalar) (end : List ℕ) (out : InputOutputAbi)
    → IsScalar s
    → EndsSize end
    → get_type_and_size_from_string (scalar_text s ++ end) out ≡ check_array end (set_scalar s out)
unfolding get_type_and_size_from_string match_named strip_prefix
parse_scalar (uint_scalar n) end out h e =
    sized_lem (n * 8) end (record out { type = EthereumTypeName.uint }) (omega arith) e refl
    ∙ ap
        (λ k.
          check_array end (record out {
            type = EthereumTypeName.uint;
            size_bytes = k;
            array_type_size_bytes = k;
          }))
        (omega arith)
parse_scalar (int_scalar n) end out h e =
    sized_lem (n * 8) end (record out { type = EthereumTypeName.int }) (omega arith) e refl
    ∙ ap
        (λ k.
          check_array end
            (record out { type = EthereumTypeName.int; size_bytes = k; array_type_size_bytes = k }))
        (omega arith)
parse_scalar (bytes_scalar n) end out h e =
    bytes_sized n end out (omega arith)
    ∙ sized_lem n end (record out { type = bytes_static }) (omega arith) e refl
parse_scalar address_scalar end out h e =
    unsized end (record out { type = EthereumTypeName.address }) refl refl
parse_scalar bool_scalar end out h e =
    unsized end (record out { type = EthereumTypeName.bool }) refl refl
parse_scalar string_scalar end out h e =
    (unfold match_bytes match_string in
      unsized end (record out { type = EthereumTypeName.string }) refl refl)
parse_scalar bytes_dynamic_scalar [] out h e = unfold match_bytes check_array in refl
parse_scalar bytes_dynamic_scalar (c ∷ end) out h e =
    bytes_array c end out e
    ∙ unsized (c ∷ end) (record out { type = EthereumTypeName.bytes_dynamic }) refl refl

print_int_small : (n : ℕ) → n < 2 ^ 31 → print_int n ≡ decimal n
unfolding print_int
print_int_small n h = ground arith

small_word : (m : ℕ) → m < 2 ^ 31 → m % 2 ^ 32 ≡ m
small_word m h = omega arith

print_scalar :
    (s : Scalar) (input : InputOutputAbi)
    → IsScalar s
    → input_text (set_scalar s input) ≡ some (scalar_text s)
unfolding input_text type_name_to_string type_suffix
print_scalar (uint_scalar n) input h =
    ap (λ t. some (codes "uint" ++ t))
      (ap print_int (small_word (n * 8) (omega arith)) ∙ print_int_small (n * 8) (omega arith))
print_scalar (int_scalar n) input h =
    ap (λ t. some (codes "int" ++ t))
      (ap print_int (small_word (n * 8) (omega arith)) ∙ print_int_small (n * 8) (omega arith))
print_scalar (bytes_scalar n) input h =
    ap (λ t. some (codes "bytes" ++ t)) (print_int_small n (omega arith))
print_scalar address_scalar input h = refl
print_scalar bool_scalar input h = refl
print_scalar string_scalar input h = refl
print_scalar bytes_dynamic_scalar input h = refl

-- The two array cases of getSignature, from the element type and its size on.
dynamic_text :
    (input : InputOutputAbi) (name text : List ℕ)
    → type_name_to_string input.array_type ≡ some name
    → name ++ array_type_size (record input { type = array_dynamic }) ≡ text
    → input_text (record input { type = array_dynamic }) ≡ some (text ++ codes "[]")
unfolding input_text type_suffix array_text type_name_to_string
dynamic_text input name text n e =
    rw n (ap some (sym (append_assoc name _ (codes "[]")) ∙ ap (λ t. t ++ codes "[]") e))

static_text :
    (input : InputOutputAbi) (name text : List ℕ)
    → type_name_to_string input.array_type ≡ some name
    → name ++ array_type_size (record input { type = array_static }) ≡ text
    → input.array_size < 2 ^ 31
    → input_text (record input { type = array_static })
      ≡ some (text ++ (b'[' ∷ (decimal input.array_size ++ codes "]")))
unfolding input_text type_suffix array_text type_name_to_string
static_text input name text n e h = rw n (
    rw (print_int_small input.array_size h) (
      ap some (
        sym (append_assoc name _ (b'[' ∷ (decimal input.array_size ++ codes "]")))
        ∙ ap (λ t. t ++ (b'[' ∷ (decimal input.array_size ++ codes "]"))) e)))

element_text :
    (s : Scalar) (input : InputOutputAbi) (kind : EthereumTypeName) (k : ℕ)
    → IsScalar s
    → input.array_type_size_bytes ≡ 0
    → (name : List ℕ) × (type_name_to_string (set_scalar s input).type ≡ some name)
      × (name
            ++ array_type_size (record (set_scalar s input) {
              array_type = (set_scalar s input).type;
              type = kind;
              array_size = k;
            })
          ≡ scalar_text s)
unfolding type_name_to_string array_type_size
element_text (uint_scalar n) input kind k h z = (codes "uint", refl, ground arith)
element_text (int_scalar n) input kind k h z = (codes "int", refl, ground arith)
element_text (bytes_scalar n) input kind k h z = (codes "bytes", refl, ground arith)
element_text address_scalar input kind k h z = (codes "address", refl, ground (arith, z))
element_text bool_scalar input kind k h z = (codes "bool", refl, ground (arith, z))
element_text string_scalar input kind k h z = (codes "string", refl, ground (arith, z))
element_text bytes_dynamic_scalar input kind k h z = (codes "bytes", refl, ground (arith, z))

pub print_type :
    (t : AbiType) (input : InputOutputAbi)
    → IsAbiType t
    → input.array_type_size_bytes ≡ 0
    → input_text (abi_of t input) ≡ some (type_text t)
print_type (scalar s) input h z = print_scalar s input h
print_type (dynamic_array s) input h z =
    let element = element_text s input array_dynamic (set_scalar s input).array_size h z in
    dynamic_text (record (set_scalar s input) { array_type = (set_scalar s input).type })
      (element.0) (scalar_text s) (element.1) (element.2)
print_type (static_array s k) input (h, small) z =
    let element = element_text s input array_static k h z in
    static_text
      (record (set_scalar s input) { array_type = (set_scalar s input).type; array_size = k })
      (element.0) (scalar_text s) (element.1) (element.2) (omega arith)

pub parse_type :
    (t : AbiType) (out : InputOutputAbi)
    → IsAbiType t
    → get_type_and_size_from_string (type_text t) out ≡ some (success, abi_of t out)
parse_type t out h = rw (type_text_lem t) (
    parse_scalar (scalar_of t) (array_end t) out (scalar_valid t h) (end_valid t)
    ∙ check_array_end t out (size_valid t h))
  where
    scalar_valid : (t : AbiType) → IsAbiType t → IsScalar (scalar_of t)
    scalar_valid (scalar s) h = h
    scalar_valid (dynamic_array s) h = h
    scalar_valid (static_array s k) h = h.0

    end_valid : (t : AbiType) → EndsSize (array_end t)
    end_valid (scalar s) = tt
    end_valid (dynamic_array s) = refl
    end_valid (static_array s k) = refl

    size_valid : (t : AbiType) → IsAbiType t → EndsWell t
    size_valid (scalar s) h = tt
    size_valid (dynamic_array s) h = tt
    size_valid (static_array s k) h = h.1

-- For an integer or bytes type of 1 to 32 bytes, address, bool, string or bytes, a dynamic array of
-- such, or a static array with a size of one digit, getSignature prints the text of the type, from a
-- description whose unused array size is zero, and getTypeAndSizeFromString reads the same
-- description from that text.
pub parse-print_type :
    (t : AbiType) (input out : InputOutputAbi)
    → IsAbiType t
    → input.array_type_size_bytes ≡ 0
    → (text : List ℕ) × (input_text (abi_of t input) ≡ some text)
      × (text ≡ type_text t)
      × (get_type_and_size_from_string text out ≡ some (success, abi_of t out))
parse-print_type t input out h z = (type_text t, print_type t input h z, refl, parse_type t out h)
