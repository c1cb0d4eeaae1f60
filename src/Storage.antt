-- ===== src/Storage.antt =====
-- The private key in persistent storage: src/storage/esp, src/storage/nano33iot and src/storage/os.
pub mod RoundTrip
pub mod FileRoundTrip
mod Runs
use iotex_arduino.Base.{
  ℕ, zero, suc, ◌+◌, ◌%◌, ◌^◌, List, [], ◌∷◌, Bool, true, false, Option, none, some,
}
use iotex_arduino.Base.{length, in_array, ◌==◌, if◌then◌else◌}
use iotex_arduino.ResultCode.{ResultCode, success, error_storage_open, error_storage_bad_read}
use iotex_arduino.ResultCode.{error_storage_empty, private_key_size}

-- The object EEPROM of the platform's library.
pub record Eeprom : Type 1 where
  pub State : Type 0
  pub begin : State → ℕ → State
  pub write : State → ℕ → ℕ → State
  pub read : State → ℕ → ℕ
  pub commit : State → State
  pub is_valid : State → Bool

module _ (eeprom : Eeprom) where
  -- The loops over the bytes of the key, from `i` on. An address is a 32-bit word.
  unfoldable pub write_bytes : eeprom.State → ℕ → ℕ → List ℕ → eeprom.State
  write_bytes state address i [] = state
  write_bytes state address i (b ∷ bytes) =
      write_bytes (eeprom.write state ((address + i) % 2 ^ 32) b) address (i + 1) bytes

  unfoldable pub read_bytes : eeprom.State → ℕ → ℕ → ℕ → List ℕ
  read_bytes state address i zero = []
  read_bytes state address i (suc n) =
      eeprom.read state ((address + i) % 2 ^ 32) ∷ read_bytes state address (i + 1) n

  -- The storage of the ESP boards, with the flag of its class.
  pub record EspStorage : Type 0 where
    pub init : Bool
    pub state : eeprom.State

  abbrev pub default_eeprom_size : ℕ
  default_eeprom_size = 512

  unfoldable pub initialize : EspStorage → ℕ → EspStorage
  initialize storage storage_size =
      if storage.init
      then storage
      else record { init = true; state = eeprom.begin storage.state storage_size }

  unfoldable pub save_private_key : EspStorage → ℕ → List ℕ → ResultCode × EspStorage
  save_private_key storage address key =
      let begun = initialize storage default_eeprom_size in
      (success, record begun { state = eeprom.commit (write_bytes begun.state address 0 key) })

  -- The code, the key and the storage after the call.
  unfoldable pub read_private_key : EspStorage → ℕ → ResultCode × List ℕ × EspStorage
  read_private_key storage address =
      let begun = initialize storage default_eeprom_size in
      (success, read_bytes begun.state address 0 private_key_size, begun)

  -- The Nano 33 IoT has no flag, and asks whether anything was stored.
  unfoldable pub nano_save_private_key : eeprom.State → ℕ → List ℕ → ResultCode × eeprom.State
  nano_save_private_key state address key =
      (success, eeprom.commit (write_bytes state address 0 key))

  unfoldable pub nano_read_private_key : eeprom.State → ℕ → List ℕ → ResultCode × List ℕ
  nano_read_private_key state address old =
      if eeprom.is_valid state
      then (success, read_bytes state address 0 private_key_size)
      else (error_storage_empty, old)

-- The files of the C library. `fread` gives the bytes that it read, `ferror` says whether it met an
-- error, and `fclose` whether what was written reached the file.
pub record Files : Type 1 where
  pub State : Type 0
  pub File : Type 0
  pub open_write : State → List ℕ → Option (File × State)
  pub open_read : State → List ℕ → Option (File × State)
  pub fwrite : State → File → List ℕ → ℕ × State
  pub fread : State → File → ℕ → List ℕ × State
  pub ferror : State → File → Bool
  pub fclose : State → File → Bool × State

module _ (files : Files) where
  -- The number of bytes that were written and the result of fclose are dropped.
  unfoldable pub os_save_private_key : files.State → List ℕ → List ℕ → ResultCode × files.State
  os_save_private_key state path key = elim (files.open_write state path) [
    | none ↦ (error_storage_open, state)
    | some (file, opened) ↦ (success, (files.fclose (files.fwrite opened file key).1 file).1)
  ]

  -- The code, the key and the files after the call.
  unfoldable pub os_read_private_key : files.State → List ℕ → ResultCode × List ℕ × files.State
  os_read_private_key state path = elim (files.open_read state path) [
    | none ↦ (error_storage_open, in_array private_key_size [], state)
    | some (file, opened) ↦
        let (bytes, read) = files.fread opened file private_key_size in
        (
          if length bytes == private_key_size then success else error_storage_bad_read,
          in_array private_key_size bytes,
          (files.fclose read file).1,
        )
  ]
