-- ===== src/Storage/FileRoundTrip.antt =====
-- A key that was saved in a file of the OS and is read back.
use iotex_arduino.Base.{ℕ, ◌≤◌, ◌≡◌, arith, List, [], none, some, true, false, Bool-cases}
use iotex_arduino.Base.{length, take, take-all, length-take, in_array, ◌==◌, if◌then◌else◌, ◌∙◌}
use iotex_arduino.Base.{Option-cases, inl, inr, ◌⊎◌}
use iotex_arduino.ResultCode.{success, error_storage_open, error_storage_bad_read}
use iotex_arduino.Storage.{Files, os_save_private_key, os_read_private_key}

-- What the documentation of the C library says of one path: a file that is opened to be written
-- holds, when it is closed without an error, the bytes that fwrite counted, which are not more than it
-- was given. When a file that holds bytes opens to be read, fread gives the first of them, unless it
-- meets an error.
pub record IsFiles (files : Files) (path : List ℕ) : Type 1 where
  pub Contains : files.State → List ℕ → Type 0
  pub write_lem :
      (state opened : files.State) (file : files.File) (bytes : List ℕ)
      → files.open_write state path ≡ some (file, opened)
      → (files.fclose (files.fwrite opened file bytes).1 file).0 ≡ true
      → Contains
          (files.fclose (files.fwrite opened file bytes).1 file).1
          (take (files.fwrite opened file bytes).0 bytes)
  pub count_lem :
      (state : files.State) (file : files.File) (bytes : List ℕ)
      → (files.fwrite state file bytes).0 ≤ length bytes
  pub read_lem :
      (state opened : files.State) (file : files.File) (bytes : List ℕ) (n : ℕ)
      → Contains state bytes
      → files.open_read state path ≡ some (file, opened)
      → files.ferror (files.fread opened file n).1 file ≡ false
      → (files.fread opened file n).0 ≡ take n bytes

module _ (files : Files) (path : List ℕ) (laws : IsFiles files path) where
  -- What readPrivateKey does on a file that may hold the first bytes of a key, by how the calls of the
  -- C library end: the file does not open, it is read with an error, or the bytes are read.
  abbrev pub Reading : files.State → ℕ → List ℕ → Type 0
  Reading state count key =
      ((files.open_read state path ≡ none)
        × (os_read_private_key files state path ≡ (error_storage_open, in_array 32 [], state)))
      ⊎ ((file : files.File) × (opened : files.State) × (files.open_read state path
            ≡ some (file, opened))
          × ((files.ferror (files.fread opened file 32).1 file ≡ true)
              ⊎ (((os_read_private_key files state path).0
                    ≡ (if count == 32 then success else error_storage_bad_read))
                  × ((os_read_private_key files state path).1 ≡ in_array 32 (take count key)))))

  os_read_private_key-Contains :
      (state : files.State) (count : ℕ) (key : List ℕ)
      → laws.Contains state (take count key)
      → count ≤ length key
      → length key ≡ 32
      → Reading state count key
  unfolding os_read_private_key
  os_read_private_key-Contains state count key c short size =
      elim (Option-cases (files.open_read state path)) [
        | inl closed ↦ inl (closed, ground (arith, closed))
        | inr ((file, opened), run) ↦ inr (
          file,
          opened,
          run,
          elim (Bool-cases (files.ferror (files.fread opened file 32).1 file)) [
            | inl failed ↦ inl failed
            | inr fine ↦
                let bytes : List ℕ = take count key in
                let kept : length bytes ≡ count =
                  omega (arith, length-take count key, short, size) in
                let e : (files.fread opened file 32).0 ≡ bytes =
                  laws.read_lem state opened file bytes 32 c run fine
                  ∙ take-all bytes 32 (omega (arith, kept, short, size)) in
                inr (ground (arith, run, e, kept), ground (arith, run, e))
          ],
        )
      ]

  -- For files as documented and a key of 32 bytes: savePrivateKey returns ERROR_STORAGE_OPEN and
  -- changes nothing when the file does not open. Otherwise it writes the key with one call of fwrite,
  -- closes the file and returns SUCCESS, whatever fwrite counts and fclose says. When fclose met no
  -- error, readPrivateKey after it returns ERROR_STORAGE_OPEN and zeroes when the file does not open
  -- again; and when it opens and is read without an error, SUCCESS and the key when fwrite counted all
  -- 32 bytes, and ERROR_STORAGE_BAD_READ and the bytes that it counted with zeroes behind them when
  -- not.
  pub os_read_private_key-os_save_private_key :
      (state : files.State) (key : List ℕ)
      → length key ≡ 32
      → ((files.open_write state path ≡ none)
          × (os_save_private_key files state path key ≡ (error_storage_open, state)))
        ⊎ ((file : files.File) × (opened : files.State) × (files.open_write state path
              ≡ some (file, opened))
            × (let (count, written) = files.fwrite opened file key in
                let (closed, saved) = files.fclose written file in
                (os_save_private_key files state path key ≡ (success, saved))
                × ((closed ≡ false) ⊎ Reading saved count key)))
  unfolding os_save_private_key
  os_read_private_key-os_save_private_key state key size =
      elim (Option-cases (files.open_write state path)) [
        | inl shut ↦ inl (shut, ground (arith, shut))
        | inr ((file, opened), run) ↦
            let w = files.fwrite opened file key in
            let c = files.fclose w.1 file in
            inr (
              file,
              opened,
              run,
              (
                ground (arith, run),
                elim (Bool-cases c.0) [
                  | inr failed ↦ inl failed
                  | inl fine ↦ inr (
                      os_read_private_key-Contains c.1 w.0 key
                        (laws.write_lem state opened file key run fine)
                        (laws.count_lem opened file key) size)
                ],
              ),
            )
      ]
