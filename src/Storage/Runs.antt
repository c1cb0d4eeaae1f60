-- ===== src/Storage/Runs.antt =====
-- The storage at a concrete EEPROM.
use iotex_arduino.Base.{
  false, take-all, Bool-cases, inl, ltb, ℕ, zero, suc, ◌≡◌, refl, arith, true, false, ◌==◌,
  if◌then◌else◌,
}
use iotex_arduino.Base.{
  replicate, All, IsByte, inr, List, [], Option, none, some, take, length, codes, ◌⊎◌,
}
use iotex_arduino.Storage.{Files, os_save_private_key, os_read_private_key}
use iotex_arduino.Storage.FileRoundTrip.{IsFiles, Reading, os_read_private_key-os_save_private_key}
use iotex_arduino.ResultCode.{error_storage_open}
use iotex_arduino.ResultCode.{success}
use iotex_arduino.Storage.{Eeprom, EspStorage, save_private_key, read_private_key}
use iotex_arduino.Storage.RoundTrip.{IsEeprom, read_private_key-save_private_key}

-- The size that was begun, and the bytes by their addresses. What is not below the size is not
-- written, and reads as 0.
abbrev cells : Eeprom
cells = record {
  State = ℕ × (ℕ → ℕ);
  begin = λ state size. (size, state.1);
  write = λ state a v. (state.0, λ b. if b == a then v else state.1 b);
  read = λ state a. if ltb a state.0 then state.1 a else 0;
  commit = λ state. state;
  is_valid = λ state. true;
}

cells-IsEeprom : IsEeprom cells
cells-IsEeprom = record {
  Begun = λ state size. state.0 ≡ size;
  begin-Begun = λ state size h k. refl;
  write-Begun = λ state size a v r. r;
  read-write = λ state size a v r h w. ground (arith, r, h);
  read-write_other = λ state size a b v r h k o. ground (arith, r, o);
  read-commit = λ state size a r h. refl;
}

abbrev erased : EspStorage cells
erased = record { init = false; state = (0, λ a. 255) }

ones-IsByte : (n : ℕ) → All IsByte (replicate n 1)
ones-IsByte zero = tt
ones-IsByte (suc n) = (omega arith, ones-IsByte n)

read_private_key-save_private_key_example :
    let (ret, storage) = save_private_key cells erased 64 (replicate 32 1) in
    (ret ≡ success)
    × ((read_private_key cells storage 64).0 ≡ success)
    × ((read_private_key cells storage 64).1 ≡ replicate 32 1)
    × ((read_private_key cells storage 96).1 ≡ (read_private_key cells erased 96).1)
read_private_key-save_private_key_example =
    read_private_key-save_private_key cells 512 cells-IsEeprom erased 64 96 (replicate 32 1) refl
      (ones-IsByte 32) refl (omega arith) (omega arith) (omega arith) (inr (omega arith))

-- One file, which can be written up to forty bytes.
abbrev one_file : Files
one_file = record {
  State = Option (List ℕ);
  File = Unit;
  open_write = λ state path. some (tt, some []);
  open_read = λ state path. elim state [ none ↦ none | some bytes ↦ some (tt, some bytes) ];
  fwrite = λ state file bytes.
      if ltb 40 (length bytes) then (40, some (take 40 bytes)) else (length bytes, some bytes);
  fread =
      λ state file n. elim state [ none ↦ ([], none) | some bytes ↦ (take n bytes, some bytes) ];
  ferror = λ state file. false;
  fclose = λ state file. (true, state);
}

one_file-IsFiles : IsFiles one_file (codes "key")
one_file-IsFiles = record {
  Contains = λ state bytes. state ≡ some bytes;
  write_lem = λ state opened file bytes run fine. written bytes;
  count_lem = λ state file bytes. ground arith;
  read_lem = λ state opened file bytes n c run fine. reads state opened bytes n c run;
}
  where
    written :
        (bytes : List ℕ)
        → (one_file.fwrite none tt bytes).1 ≡ some (take (one_file.fwrite none tt bytes).0 bytes)
    written bytes = elim (Bool-cases (ltb 40 (length bytes))) [
      | inl e ↦ rw e refl
      | inr e ↦ rw e (rw (take-all bytes (length bytes) (omega arith)) refl)
    ]

    reads :
        (state opened : Option (List ℕ)) (bytes : List ℕ) (n : ℕ)
        → state ≡ some bytes
        → one_file.open_read state (codes "key") ≡ some (tt, opened)
        → (one_file.fread opened tt n).0 ≡ take n bytes
    reads none opened bytes n c run = cc
    reads (some xs) none bytes n c run = cc
    reads (some xs) (some ys) bytes n c run = ground (arith, c, run)

abbrev ones : List ℕ
ones = replicate 32 1

os_read_private_key-os_save_private_key_example :
    ((one_file.open_write none (codes "key") ≡ none)
      × (os_save_private_key one_file none (codes "key") ones ≡ (error_storage_open, none)))
    ⊎ ((file : Unit {0}) × (opened : Option (List ℕ)) × (one_file.open_write none (codes "key")
          ≡ some (file, opened))
        × ((os_save_private_key one_file none (codes "key") ones ≡ (success, some ones))
            × ((true ≡ false)
                ⊎ Reading one_file (codes "key") one_file-IsFiles (some ones) 32 ones)))
os_read_private_key-os_save_private_key_example =
    os_read_private_key-os_save_private_key one_file (codes "key") one_file-IsFiles none ones refl

saved_and_read :
    os_read_private_key one_file
      (os_save_private_key one_file none (codes "key") ones).1
      (codes "key")
    ≡ (success, ones, some ones)
unfolding os_save_private_key os_read_private_key
saved_and_read = refl
