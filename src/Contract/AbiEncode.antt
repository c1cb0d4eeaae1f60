-- ===== src/Contract/AbiEncode.antt =====
-- The call data of generateCallData against the encoding that the contract ABI defines, with a head
-- for each dynamic argument.
use iotex_arduino.Base.{ℕ, ◌+◌, ◌*◌, ◌≡◌, refl, sym, ap, ◌∙◌, arith, All, List, [], ◌∷◌, ◌++◌}
use iotex_arduino.Base.{◌↔◌, true, false, Bool-cases, inl, inr, some, append_assoc}
use iotex_arduino.Base.{length, take, length-append}
use iotex_arduino.ResultCode.{success}
use iotex_arduino.Signer.{Crypto, get_hash}
use iotex_arduino.Signer.Hex.{hex_text, length-hex_text}
use iotex_arduino.Abi.{FunctionAbi}
use iotex_arduino.Abi.Signature.{get_signature_text}
use iotex_arduino.Contract.BigEndian.{big_endian, length-big_endian}
use iotex_arduino.Contract.CallData.{ParameterValuesDictionary, generate_call_data}
use iotex_arduino.Contract.Arguments.{Argument, is_dynamic, encoding}
use iotex_arduino.Contract.Supply.{Supplies, encodings}
use iotex_arduino.Contract.CallDataLaws.{OthersOnly, call_data_lem}

abbrev pub heads_size : List Argument → ℕ
heads_size [] = 0
heads_size (a ∷ arguments) = elim (is_dynamic a) [
  | true ↦ 32 + heads_size arguments
  | false ↦ length (encoding a) + heads_size arguments
]

abbrev pub abi_heads : ℕ → List Argument → List ℕ
abi_heads offset [] = []
abi_heads offset (a ∷ arguments) = elim (is_dynamic a) [
  | true ↦ big_endian 32 offset ++ abi_heads (offset + length (encoding a)) arguments
  | false ↦ encoding a ++ abi_heads offset arguments
]

-- The encoding of the arguments by the contract ABI: the heads, then the tails.
abbrev pub abi_encode : List Argument → List ℕ
abi_encode arguments = abi_heads (heads_size arguments) arguments ++ encodings true arguments

abbrev pub dynamic_count : List Argument → ℕ
dynamic_count [] = 0
dynamic_count (a ∷ arguments) = elim (is_dynamic a) [
  | true ↦ 1 + dynamic_count arguments
  | false ↦ dynamic_count arguments
]

length-abi_heads :
    (offset : ℕ) (arguments : List Argument)
    → length (abi_heads offset arguments)
      ≡ dynamic_count arguments * 32 + length (encodings false arguments)
length-abi_heads offset [] = refl
length-abi_heads offset (a ∷ arguments) = elim (Bool-cases (is_dynamic a)) [
  | inl d ↦ ground (
    arith,
    d,
    length-append (big_endian 32 offset) (abi_heads (offset + length (encoding a)) arguments),
    length-big_endian 32 offset,
    length-abi_heads (offset + length (encoding a)) arguments,
  )
  | inr d ↦ ground (
    arith,
    d,
    length-append (encoding a) (abi_heads offset arguments),
    length-append (encoding a) (encodings false arguments),
    length-abi_heads offset arguments,
  )
]

static_heads :
    (offset : ℕ) (arguments : List Argument)
    → All (λ a. is_dynamic a ≡ false) arguments
    → abi_heads offset arguments ≡ encodings false arguments
static_heads offset [] h = refl
static_heads offset (a ∷ arguments) (h, hs) = ground (arith, h, static_heads offset arguments hs)

-- Without dynamic arguments the heads are the encodings.
static_text :
    (selector : List ℕ) (arguments : List Argument)
    → All (λ a. is_dynamic a ≡ false) arguments
    → (selector ++ encodings false arguments) ++ encodings true arguments
      ≡ selector ++ abi_encode arguments
static_text selector arguments static =
    append_assoc selector (encodings false arguments) (encodings true arguments)
    ∙ ap (λ t. selector ++ (t ++ encodings true arguments))
        (sym (static_heads (heads_size arguments) arguments static))

pub static_call_data_lem :
    (crypto : Crypto) (before after : List FunctionAbi) (f : FunctionAbi)
    (params : ParameterValuesDictionary) (arguments : List Argument) (sign out : List ℕ)
    → OthersOnly f.name before
    → OthersOnly f.name after
    → get_signature_text f ≡ some sign
    → Supplies params f.inputs arguments
    → All (λ a. is_dynamic a ≡ false) arguments
    → generate_call_data crypto (before ++ (f ∷ after)) f.name params out
      ≡ some (success, hex_text (take 4 (get_hash crypto sign) ++ abi_encode arguments))
static_call_data_lem crypto before after f params arguments sign out hb ha s h static =
    call_data_lem crypto before after f params arguments sign out hb ha s h
    ∙ ap (λ t. some (success, hex_text t))
        (static_text (take 4 (get_hash crypto sign)) arguments static)

static_when-dynamic_count :
    (arguments : List Argument)
    → dynamic_count arguments ≡ 0
    → All (λ a. is_dynamic a ≡ false) arguments
static_when-dynamic_count [] h = tt
static_when-dynamic_count (a ∷ arguments) h = elim (Bool-cases (is_dynamic a)) [
  | inl d ↦ absurd (ground (arith, d, h))
  | inr d ↦ (d, static_when-dynamic_count arguments (ground (arith, d, h)))
]

dynamic_count-All :
    (arguments : List Argument)
    → All (λ a. is_dynamic a ≡ false) arguments
    → dynamic_count arguments ≡ 0
dynamic_count-All [] h = refl
dynamic_count-All (a ∷ arguments) (h, hs) = ground (arith, h, dynamic_count-All arguments hs)

-- On a contract with one function of the name, whose signature can be printed and whose inputs the
-- dictionary supplies with valid arguments, static bytes of 1 to 32 and texts and dynamic bytes of
-- fewer than 2 ^ 24, generateCallData succeeds with a text that is 64 characters shorter, for each
-- dynamic argument, than the one that the contract ABI defines. The two texts are equal exactly when no
-- argument is dynamic.
pub call_data_short :
    (crypto : Crypto) (before after : List FunctionAbi) (f : FunctionAbi)
    (params : ParameterValuesDictionary) (arguments : List Argument) (sign out : List ℕ)
    → OthersOnly f.name before
    → OthersOnly f.name after
    → get_signature_text f ≡ some sign
    → Supplies params f.inputs arguments
    → (text : List ℕ) × (generate_call_data crypto (before ++ (f ∷ after)) f.name params out
        ≡ some (success, text))
      × (length text + dynamic_count arguments * 64
          ≡ length (hex_text (take 4 (get_hash crypto sign) ++ abi_encode arguments)))
      × (text ≡ hex_text (take 4 (get_hash crypto sign) ++ abi_encode arguments)
          ↔ All (λ a. is_dynamic a ≡ false) arguments)
call_data_short crypto before after f params arguments sign out hb ha s h =
    let selector = take 4 (get_hash crypto sign) in
    let static = encodings false arguments in
    let dynamic = encodings true arguments in
    let heads = abi_heads (heads_size arguments) arguments in
    let text : List ℕ = hex_text ((selector ++ static) ++ dynamic) in
    let whole : List ℕ = hex_text (selector ++ (heads ++ dynamic)) in
    let shorter : length text + dynamic_count arguments * 64 ≡ length whole = omega (
      arith,
      length-hex_text ((selector ++ static) ++ dynamic),
      length-hex_text (selector ++ (heads ++ dynamic)),
      length-append (selector ++ static) dynamic,
      length-append selector static,
      length-append selector (heads ++ dynamic),
      length-append heads dynamic,
      length-abi_heads (heads_size arguments) arguments,
    ) in
    (
      text,
      call_data_lem crypto before after f params arguments sign out hb ha s h,
      shorter,
      (
        λ e. static_when-dynamic_count arguments (omega (arith, shorter, ap (λ t. length t) e)),
        λ static_lem. ap hex_text (static_text selector arguments static_lem),
      ),
    )
