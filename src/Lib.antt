-- ===== src/Lib.antt =====
-- The verification of the IoTeX client library for Arduino: the parts of src/ that encode what is
-- sent and decode what is received, translated into functions, and theorems about them.
--
-- - Base, Bits: shared names, tests, lists, texts as lists of bytes, decimal text, and the native
--   bit operations as arithmetic.
-- - ResultCode: src/IoTeXResultCodes.h and the sizes of src/IoTeXConstants.h, and a write into a
--   buffer.
-- - Bech32: src/encoder/bech32.cpp. `encode`, `decode`, `create_checksum`, `verify_checksum` and
--   `poly_mod` are Encode, Decode, CreateChecksum, VerifyChecksum and PolyMod.
-- - Encoder: bech32_encode and bech32_convertBytesTo5Bit of src/encoder/encoder.cpp, on top of
--   Bech32, and the protobuf encoders (Protobuf).
-- - Signer: src/signer/signer.cpp: hex2str, str2hex, the hash of a message and the signatures.
-- - Helpers: vectorToHexString and GetResultString of src/helpers/client_helper.cpp, both
--   functions SetValueFromJsonObject for all types (SetValue) with their results
--   (SetValue/Agreement), and the JSON properties of src/helpers/json_helper.h (JsonProp,
--   JsonText).
-- - Abi: the types of src/abi/abi.h, and src/abi/abi.cpp: getSignature and the makers of
--   parameters, getTypeAndSizeFromString (TypeText) and parseContract (Parse) over the JSON
--   parser, with SetValueFromJsonObject of src/helpers/json_helper.cpp. Canonical has the texts
--   of the types of contracts.
-- - Contract: src/contract/contract.cpp and src/contract/xrc20Contract.cpp: the encoders of
--   values (Words, Params), the call data (CallData), and the calls of a token (Xrc20). A call
--   prints the signature by Abi, hashes it by Signer and writes its text by Helpers. The size of
--   bytes goes through a float, which is a rounding to 24 binary digits, with fuel for each of 64.
-- - Json, Responses: SetValueFromJsonObject and the fromJson methods of src/protobuf/pb_api.cpp
--   for an action (as sequences of statements with early returns), an account (AccountMeta), a
--   balance and a sent execution. Values and Complete say what a complete answer for an action is
--   and what is read from it.
-- - Account: the addresses and getters of src/account/account.cpp, on top of Signer and Encoder,
--   and in Account/Actions the signing and sending of actions of account.cpp and
--   src/account/account.h, on top of Wallets.
-- - Host: src/host/host.cpp, the two arrays of a host and its URL.
-- - Rpc: src/api/rpc.cpp: the URL and the JSON text of each request, with the arrays that sprintf
--   and base64_encode write into. Rpc/Json is that text as objects of members.
-- - Wallets: src/api/wallet/wallets.cpp: each call builds a request of Rpc, posts it and reads
--   the answer by Responses. Account/ContractCall joins the call data of Contract with the
--   sending of an execution.
-- - Http: `post` and `get` of src/http/os and src/http/esp (Board), and `post` of src/http/nano33
--   (Nano33): its reading of the URL (Uri), its waiting for the answer (Waiting) and the whole
--   exchange (Exchange). The loop that waits has a round for each of its 10000 milliseconds; the
--   loop that reads has fuel, and needs one more than the length of the answer.
-- - Random: fillRandom of the platforms in src/random, and random32. Account/Construct has the
--   constructors of src/account/account.cpp on top of it.
-- - Connection: src/connection/connection.h and the host of src/api/abstract.h.
-- - Storage: src/storage/esp, src/storage/nano33iot and src/storage/os, the private key in an
--   EEPROM or a file.
--
-- A `char*` and a string are the list of their bytes; an integer of w bits is a natural number
-- below 2 ^ w, reduced where the source wraps. A result `none` of a function that writes or reads
-- memory is an access outside a buffer or a read of what was never written, so that a theorem
-- that gives a `some` says that there is none.
--
-- What is vendored is a parameter: the record `Crypto` of Signer for the hash and the signatures,
-- with `IsStreaming` for a hash that takes its text in parts and `IsHash` of Account/Addresses
-- for one of 32 bytes, the record `JsonLibrary` of Json for the parser, a function `bintob64` in
-- Rpc with `IsBase64` for its documented text, the record `Nanopb` of Encoder/Protobuf for the
-- protobuf encoder, the records `Eeprom` and `Files` of Storage with `IsEeprom` for an EEPROM that
-- was begun and `IsFiles` for files, the records `Curl` and `HttpClient` of Http and `WifiClient`
-- of Http/Nano33, the records `NumberSource` and `ByteSource` of Random, and the function `post` of
-- Wallets for the client that it calls. Loops are structural recursion on the list or on the count
-- of the loop; the decimal text of a number n has fuel n, which is enough since n has at most n + 1
-- digits.
--
-- An `unsigned long` has 64 bits, as where the tests run.
--
-- Not modelled: logging, the debug output and what it prints to a serial port, the generated
-- protobuf descriptors, the JSON objects at the end of src/protobuf/pb_api.h, which are marked as
-- unused, and the vendored libraries, with the TrueRandom library in src/random/esp8266. The
-- default constructor of a connection sets nothing.
pub mod Base
pub mod Bits
pub mod ResultCode
pub mod Bech32
pub mod Encoder
pub mod Signer
pub mod Helpers
pub mod Abi
pub mod Contract
pub mod Json
pub mod Responses
pub mod Account
pub mod Host
pub mod Rpc
pub mod Wallets
pub mod Storage
pub mod Http
pub mod Random
pub mod Connection
