-- ===== src/Encoder/Protobuf.antt =====
-- The protobuf encoders of src/encoder/encoder.cpp over nanopb, and the messages of action.pb.h that
-- they fill. A `none` is a read or a write outside an array.
use iotex_arduino.Base.{ℕ, ◌+◌, ◌/◌, List, Bool, true, false, Option, some, ◌>>=◌, take}
use iotex_arduino.Base.{length, replicate, c_string}
use iotex_arduino.Signer.{str2hex}
use iotex_arduino.Rpc.{TransferCore, ExecutionCore}

-- A pb_callback_t for encoding, on its `arg`: what it does to a stream for a field by its tag.
abbrev pub Callback : Type 0 → Type 0
Callback Stream = Stream → ℕ → Bool × Stream

-- The `oneof` of ActionCore, by the tag that is set.
pub data PbAction (Stream : Type 0) : Type 0 where
  transfer_tag : Callback Stream → Callback Stream → PbAction Stream
  execution_tag : Callback Stream → Callback Stream → Callback Stream → PbAction Stream

pub record PbActionCore (Stream : Type 0) : Type 0 where
  pub version : ℕ
  pub nonce : ℕ
  pub gas_limit : ℕ
  pub gas_price : Callback Stream
  pub action : PbAction Stream

-- The functions of extern/nanopb that the encoder calls. A stream has what was written.
pub record Nanopb : Type 1 where
  pub Stream : Type 0
  pub ostream_from_buffer : ℕ → Stream
  pub encode_tag_for_field : Stream → ℕ → Bool × Stream
  pub encode_string : Stream → List ℕ → Bool × Stream
  pub encode : Stream → PbActionCore Stream → Bool × Stream
  -- The first `bytes_written` bytes of the buffer.
  pub written : Stream → List ℕ

module _ (nanopb : Nanopb) where
  -- The callbacks encode_string, on the text of its argument, and encode_bytes, on its bytes.
  unfoldable pub encode_text : List ℕ → Callback nanopb.Stream
  encode_text text stream field =
      let (tagged, stream') = nanopb.encode_tag_for_field stream field in
      elim tagged [ false ↦ (false, stream') | true ↦ nanopb.encode_string stream' text ]

  unfoldable pub encode_bytes : List ℕ → Callback nanopb.Stream
  encode_bytes bytes stream field =
      let (tagged, stream') = nanopb.encode_tag_for_field stream field in
      elim tagged [ false ↦ (false, stream') | true ↦ nanopb.encode_string stream' bytes ]

  -- What is written, with the result of pb_encode dropped.
  abbrev pub encode_core : ℕ → PbActionCore nanopb.Stream → List ℕ
  encode_core max_out_size core =
      nanopb.written (nanopb.encode (nanopb.ostream_from_buffer max_out_size) core).1

  unfoldable pub protobuf_encode_transfer : TransferCore → ℕ → Option (List ℕ)
  protobuf_encode_transfer transfer max_out_size = do
    gas_price ← c_string transfer.gas_price
    amount ← c_string transfer.amount
    recipient ← c_string transfer.recipient
    some (
        encode_core max_out_size (record {
          version = transfer.version;
          nonce = transfer.nonce;
          gas_limit = transfer.gas_limit;
          gas_price = encode_text gas_price;
          action = transfer_tag (encode_text amount) (encode_text recipient);
        }))

  -- The result of str2hex is dropped. The array has one byte more than the data.
  unfoldable pub protobuf_encode_execution : ExecutionCore → ℕ → Option (List ℕ)
  protobuf_encode_execution execution max_out_size =
      let size = length execution.payload / 2 in
      do
        gas_price ← c_string execution.gas_price
        amount ← c_string execution.amount
        contract ← c_string execution.contract
        decoded ← str2hex execution.payload (replicate (size + 1) 0) size
        some (
            encode_core max_out_size (record {
              version = execution.version;
              nonce = execution.nonce;
              gas_limit = execution.gas_limit;
              gas_price = encode_text gas_price;
              action =
                  execution_tag (encode_text amount) (encode_text contract)
                    (encode_bytes (take size decoded.1));
            }))
