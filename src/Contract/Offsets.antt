-- ===== src/Contract/Offsets.antt =====
-- A static array of texts as a parameter: its heads hold the offsets of its tails.
use iotex_arduino.Base.{ℕ, suc, ◌+◌, ◌*◌, ◌%◌, ◌^◌, ◌<◌, ◌≡◌, refl, sym, ap, ◌∙◌}
use iotex_arduino.Base.{arith, All, List, [], ◌∷◌, ◌++◌, true, false, some}
use iotex_arduino.Base.{length, length-append, append_assoc, append-nil, map}
use iotex_arduino.Abi.{EthereumTypeName, parameter, elements, Elements}
use iotex_arduino.Abi.{none_left, element, make_param_string, parameter_is_dynamic}
use iotex_arduino.Contract.BigEndian.{big_endian, uint_word}
use iotex_arduino.Contract.Arguments.{Argument, string_argument, encoding, string_parameter}
use iotex_arduino.Contract.Supply.{encodings}
use iotex_arduino.Contract.AbiEncode.{abi_heads, abi_encode, heads_size}
use iotex_arduino.Contract.Params.{Emission, generate_bytes_for_parameter}
use iotex_arduino.Contract.Params.{generate_dynamic_elements, element_heads, append_tails}
use iotex_arduino.Contract.Params.{total_tails, join_elements, to_size_t, not_positive}
use iotex_arduino.Contract.Params.{first_is_dynamic}
use iotex_arduino.Contract.Arrays.{small_positive}

abbrev pub string_elements : List (List ℕ) → Elements
string_elements [] = none_left
string_elements (s ∷ texts) = element (make_param_string s) (string_elements texts)

-- What the encoder of each element leaves.
abbrev pub tail_of : List ℕ → Emission
tail_of s = (length (encoding (string_argument s)) % 2 ^ 32, encoding (string_argument s))

abbrev pub arguments_of : List (List ℕ) → List Argument
arguments_of texts = map string_argument texts

dynamic_elements-step :
    (s : List ℕ) (m : ℕ) (rest : Elements) (e : Emission) (es : List Emission)
    → generate_bytes_for_parameter (make_param_string s) EthereumTypeName.string [] ≡ some e
    → generate_dynamic_elements m rest ≡ some es
    → generate_dynamic_elements (suc m) (element (make_param_string s) rest) ≡ some (e ∷ es)
unfolding generate_dynamic_elements make_param_string
dynamic_elements-step s m rest e es p q = rw p (rw q refl)

dynamic_elements_lem :
    (texts : List (List ℕ))
    → All (λ s. length s < 2 ^ 24) texts
    → generate_dynamic_elements (length texts) (string_elements texts) ≡ some (map tail_of texts)
dynamic_elements_lem [] h = unfold generate_dynamic_elements in refl
dynamic_elements_lem (s ∷ texts) (h, hs) =
    dynamic_elements-step s (length texts) (string_elements texts) (tail_of s) (map tail_of texts)
      (string_parameter s h) (dynamic_elements_lem texts hs)

size_t_of : (n : ℕ) → n < 2 ^ 31 → to_size_t (n % 2 ^ 32) ≡ n
size_t_of n h = ground arith

element_heads-step :
    (offset size : ℕ) (tail : List ℕ) (tails : List Emission) (buffer : List ℕ)
    → offset < 2 ^ 64
    → element_heads offset ((size, tail) ∷ tails) buffer
      ≡ element_heads ((offset + to_size_t size) % 2 ^ 64) tails (buffer ++ big_endian 32 offset)
unfolding element_heads
element_heads-step offset size tail tails buffer h = rw (uint_word 8 offset (omega arith) h) refl

tails_length :
    (s : List ℕ) (texts : List (List ℕ))
    → length (encodings true (arguments_of (s ∷ texts)))
      ≡ length (encoding (string_argument s)) + length (encodings true (arguments_of texts))
tails_length s texts =
    length-append (encoding (string_argument s)) (encodings true (arguments_of texts))

element_heads_lem :
    (offset : ℕ) (texts : List (List ℕ)) (buffer : List ℕ)
    → offset + length (encodings true (arguments_of texts)) < 2 ^ 31
    → element_heads offset (map tail_of texts) buffer
      ≡ some (buffer ++ abi_heads offset (arguments_of texts))
element_heads_lem offset [] buffer h = unfold element_heads in ap some (sym (append-nil buffer))
element_heads_lem offset (s ∷ texts) buffer h =
    let size = length (encoding (string_argument s)) in
    let whole = tails_length s texts in
    let next : (offset + to_size_t (size % 2 ^ 32)) % 2 ^ 64 ≡ offset + size =
      ap (λ n. (offset + n) % 2 ^ 64) (size_t_of size (omega arith)) ∙ omega arith in
    element_heads-step offset (size % 2 ^ 32) (encoding (string_argument s)) (map tail_of texts)
      buffer (omega arith)
    ∙ ap (λ n. element_heads n (map tail_of texts) (buffer ++ big_endian 32 offset)) next
    ∙ element_heads_lem (offset + size) texts (buffer ++ big_endian 32 offset) (omega arith)
    ∙ ap some (
        append_assoc buffer (big_endian 32 offset) (abi_heads (offset + size) (arguments_of texts)))

append_tails_lem :
    (texts : List (List ℕ)) (buffer : List ℕ)
    → append_tails (map tail_of texts) buffer ≡ buffer ++ encodings true (arguments_of texts)
unfolding append_tails
append_tails_lem [] buffer = sym (append-nil buffer)
append_tails_lem (s ∷ texts) buffer =
    append_tails_lem texts (buffer ++ encoding (string_argument s))
    ∙ append_assoc buffer (encoding (string_argument s)) (encodings true (arguments_of texts))

total_tails_lem :
    (texts : List (List ℕ))
    → total_tails (map tail_of texts) ≡ length (encodings true (arguments_of texts))
unfolding total_tails
total_tails_lem [] = refl
total_tails_lem (s ∷ texts) = omega (arith, total_tails_lem texts, tails_length s texts)

heads_size_lem : (texts : List (List ℕ)) → heads_size (arguments_of texts) ≡ 32 * length texts
heads_size_lem [] = refl
heads_size_lem (s ∷ texts) = omega (arith, heads_size_lem texts)

tails_count : (texts : List (List ℕ)) → length (map tail_of texts) ≡ length texts
tails_count [] = refl
tails_count (s ∷ texts) = ap suc (tails_count texts)

join_elements_lem :
    (texts : List (List ℕ)) (buffer : List ℕ)
    → 32 * length texts + length (encodings true (arguments_of texts)) < 2 ^ 31
    → join_elements (length texts) buffer (map tail_of texts)
      ≡ some (
        32 * length texts + length (encodings true (arguments_of texts)),
        buffer ++ abi_encode (arguments_of texts),
      )
unfolding join_elements
join_elements_lem texts buffer h = rw (element_heads_lem (32 * length texts) texts buffer h) (
    ap
      (λ n. some (
        n,
        append_tails (map tail_of texts)
            (buffer ++ abi_heads (32 * length texts) (arguments_of texts)),
      ))
      counted
    ∙ ap (λ t. some (32 * length texts + length (encodings true (arguments_of texts)), t)) joined)
  where
    counted :
        (32 * length (map tail_of texts) + total_tails (map tail_of texts)) % 2 ^ 32
        ≡ 32 * length texts + length (encodings true (arguments_of texts))
    counted = omega (arith, total_tails_lem texts, tails_count texts)

    joined :
        append_tails
          (map tail_of texts)
          (buffer ++ abi_heads (32 * length texts) (arguments_of texts))
        ≡ buffer ++ abi_encode (arguments_of texts)
    joined =
        append_tails_lem texts (buffer ++ abi_heads (32 * length texts) (arguments_of texts))
        ∙ append_assoc buffer (abi_heads (32 * length texts) (arguments_of texts))
            (encodings true (arguments_of texts))
        ∙ ap
            (λ n.
              buffer ++ (abi_heads n (arguments_of texts) ++ encodings true (arguments_of texts)))
            (sym (heads_size_lem texts))

first_string :
    (s : List ℕ) (texts : List (List ℕ)) → first_is_dynamic (string_elements (s ∷ texts)) ≡ true
unfolding parameter_is_dynamic make_param_string
first_string s texts = refl

array_of_dynamic-step :
    (items : Elements) (size : ℕ) (buffer : List ℕ) (es : List Emission) (e : Emission)
    → not_positive size ≡ false
    → first_is_dynamic items ≡ true
    → generate_dynamic_elements size items ≡ some es
    → join_elements size buffer es ≡ some e
    → generate_bytes_for_parameter
        (parameter (elements items) size false EthereumTypeName.array_static)
        EthereumTypeName.array_static
        buffer
      ≡ some e
unfolding generate_bytes_for_parameter
array_of_dynamic-step items size buffer es e p f d j = rw p (rw f (rw d j))

-- On a non-empty list of texts of fewer than 2 ^ 24 bytes each, as a static array, whose encoding has
-- fewer than 2 ^ 31 bytes, generateBytesForParameter appends the encoding that the contract ABI defines, a head for each text
-- with the offset of its tail and then the tails, and returns the number of bytes that it appends.
pub string_array_lem :
    (s : List ℕ) (texts : List (List ℕ)) (buffer : List ℕ)
    → All (λ t. length t < 2 ^ 24) (s ∷ texts)
    → 32 * suc (length texts) + length (encodings true (arguments_of (s ∷ texts))) < 2 ^ 31
    → generate_bytes_for_parameter
        (parameter
          (elements (string_elements (s ∷ texts)))
          (suc (length texts))
          false
          EthereumTypeName.array_static)
        EthereumTypeName.array_static
        buffer
      ≡ some (
        32 * suc (length texts) + length (encodings true (arguments_of (s ∷ texts))),
        buffer ++ abi_encode (arguments_of (s ∷ texts)),
      )
string_array_lem s texts buffer h total =
    array_of_dynamic-step (string_elements (s ∷ texts)) (suc (length texts)) buffer
      (map tail_of (s ∷ texts)) _ (small_positive (length texts) (omega arith))
      (first_string s texts) (dynamic_elements_lem (s ∷ texts) h)
      (join_elements_lem (s ∷ texts) buffer total)
