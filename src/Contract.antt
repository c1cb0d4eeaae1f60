-- ===== src/Contract.antt =====
-- src/contract/contract.cpp and src/contract/xrc20Contract.cpp, in parts.
pub mod Words
pub mod WordLaws
pub mod BytesLaws
pub mod BigEndian
pub mod Params
pub mod Arguments
pub mod CallData
pub mod Arrays
pub mod Supply
pub mod CallDataLaws
pub mod AbiEncode
pub mod SignedWords
pub mod ByteEncoding
pub mod Offsets
pub mod Dictionary
pub mod Xrc20
pub mod Runs
mod ArrayRuns
