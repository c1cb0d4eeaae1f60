-- ===== src/Storage/RoundTrip.antt =====
-- A key that was saved in an EEPROM is read back, and the other bytes stay.
use iotex_arduino.Base.{
  ℕ, zero, suc, ◌+◌, ◌%◌, ◌^◌, ◌≤◌, ◌<◌, ◌≡◌, ◌⊎◌, refl, sym, ap, ◌∙◌, arith, List,
}
use iotex_arduino.Base.{
  if◌then◌else◌, Bool, false, Bool-cases, inl, inr, [], ◌∷◌, true, All, IsByte, length,
}
use iotex_arduino.ResultCode.{success}
use iotex_arduino.Storage.{
  Eeprom, EspStorage, write_bytes, read_bytes, initialize, save_private_key,
}
use iotex_arduino.Storage.{read_private_key, nano_save_private_key, nano_read_private_key}

-- What the documentation of EEPROM says of the bytes below its size, in a state in which it was begun
-- with that size. It begins with at most 4096 bytes.
pub record IsEeprom (eeprom : Eeprom) : Type 1 where
  pub Begun : eeprom.State → ℕ → Type 0
  pub begin-Begun :
      (state : eeprom.State) (size : ℕ)
      → 0 < size
      → size ≤ 4096
      → Begun (eeprom.begin state size) size
  pub write-Begun :
      (state : eeprom.State) (size a v : ℕ) → Begun state size → Begun (eeprom.write state a v) size
  pub read-write :
      (state : eeprom.State) (size a v : ℕ)
      → Begun state size
      → a < size
      → v < 256
      → eeprom.read (eeprom.write state a v) a ≡ v
  pub read-write_other :
      (state : eeprom.State) (size a b v : ℕ)
      → Begun state size
      → a < size
      → b < size
      → b < a ⊎ a < b
      → eeprom.read (eeprom.write state a v) b ≡ eeprom.read state b
  pub read-commit :
      (state : eeprom.State) (size a : ℕ)
      → Begun state size
      → a < size
      → eeprom.read (eeprom.commit state) a ≡ eeprom.read state a

module _ (eeprom : Eeprom) (size : ℕ) (laws : IsEeprom eeprom) where
  write_bytes-Begun :
      (state : eeprom.State) (address i : ℕ) (bytes : List ℕ)
      → laws.Begun state size
      → laws.Begun (write_bytes eeprom state address i bytes) size
  unfolding write_bytes
  write_bytes-Begun state address i [] r = r
  write_bytes-Begun state address i (x ∷ bytes) r =
      write_bytes-Begun (eeprom.write state ((address + i) % 2 ^ 32) x) address (i + 1) bytes
        (laws.write-Begun state size ((address + i) % 2 ^ 32) x r)

  read-write_bytes :
      (state : eeprom.State) (address i b : ℕ) (bytes : List ℕ)
      → laws.Begun state size
      → b < size
      → address + i + length bytes ≤ size
      → size ≤ 2 ^ 32
      → b < address + i ⊎ address + i + length bytes ≤ b
      → eeprom.read (write_bytes eeprom state address i bytes) b ≡ eeprom.read state b
  unfolding write_bytes
  read-write_bytes state address i b [] r k h w o = refl
  read-write_bytes state address i b (x ∷ bytes) r k h w o =
      read-write_bytes (eeprom.write state ((address + i) % 2 ^ 32) x) address (i + 1) b bytes
        (laws.write-Begun state size ((address + i) % 2 ^ 32) x r) k (omega (arith, h)) w
        (ground (arith, o))
      ∙ laws.read-write_other state size _ b x r (omega (arith, h, w)) k (ground (arith, h, w, o))

  read_bytes-same :
      (s t : eeprom.State) (address i n : ℕ)
      → address + i + n ≤ 2 ^ 32
      → ((b : ℕ) → address + i ≤ b → b < address + i + n → eeprom.read s b ≡ eeprom.read t b)
      → read_bytes eeprom s address i n ≡ read_bytes eeprom t address i n
  unfolding read_bytes
  read_bytes-same s t address i zero h same = refl
  read_bytes-same s t address i (suc n) h same =
      rw (same ((address + i) % 2 ^ 32) (omega (arith, h)) (omega (arith, h))) (
        ap (λ r. eeprom.read t ((address + i) % 2 ^ 32) ∷ r)
          (read_bytes-same s t address (i + 1) n (omega (arith, h))
            (λ b low high. same b (omega (arith, low)) (omega (arith, high)))))

  read_bytes-write_bytes :
      (state : eeprom.State) (address i : ℕ) (bytes : List ℕ)
      → laws.Begun state size
      → All IsByte bytes
      → address + i + length bytes ≤ size
      → size ≤ 2 ^ 32
      → read_bytes eeprom (write_bytes eeprom state address i bytes) address i (length bytes)
        ≡ bytes
  unfolding read_bytes write_bytes
  read_bytes-write_bytes state address i [] r t h w = refl
  read_bytes-write_bytes state address i (x ∷ bytes) r (v, t) h w =
      let written : eeprom.State = eeprom.write state ((address + i) % 2 ^ 32) x in
      let kept = laws.write-Begun state size ((address + i) % 2 ^ 32) x r in
      let first : eeprom.read (write_bytes eeprom written address (i + 1) bytes)
            ((address + i) % 2 ^ 32)
          ≡ x =
        read-write_bytes written address (i + 1) ((address + i) % 2 ^ 32) bytes kept
          (omega (arith, h, w)) (omega (arith, h)) w (inl (omega (arith, h, w)))
        ∙ laws.read-write state size ((address + i) % 2 ^ 32) x r (omega (arith, h, w)) v in
      rw first (
        ap (λ r. x ∷ r)
          (read_bytes-write_bytes written address (i + 1) bytes kept t (omega (arith, h)) w))

  -- What is read after the bytes of a key are committed: the key, and elsewhere what was there before.
  committed-key :
      (state : eeprom.State) (address : ℕ) (key : List ℕ)
      → laws.Begun state size
      → All IsByte key
      → length key ≡ 32
      → address + 32 ≤ size
      → size ≤ 2 ^ 32
      → read_bytes eeprom (eeprom.commit (write_bytes eeprom state address 0 key)) address 0 32
        ≡ key
  committed-key state address key r t l h w =
      let after : eeprom.State = write_bytes eeprom state address 0 key in
      read_bytes-same (eeprom.commit after) after address 0 32 (omega (arith, h, w)) (λ b low high.
        laws.read-commit after size b (write_bytes-Begun state address 0 key r)
          (omega (arith, high, h)))
      ∙ ap (λ n. read_bytes eeprom after address 0 n) (sym l)
      ∙ read_bytes-write_bytes state address 0 key r t (omega (arith, h, l)) w

  committed-other :
      (state : eeprom.State) (address other : ℕ) (key : List ℕ)
      → laws.Begun state size
      → length key ≡ 32
      → address + 32 ≤ size
      → size ≤ 2 ^ 32
      → other + 32 ≤ size
      → other + 32 ≤ address ⊎ address + 32 ≤ other
      → read_bytes eeprom (eeprom.commit (write_bytes eeprom state address 0 key)) other 0 32
        ≡ read_bytes eeprom state other 0 32
  committed-other state address other key r l h w g apart =
      let after : eeprom.State = write_bytes eeprom state address 0 key in
      read_bytes-same (eeprom.commit after) state other 0 32 (omega (arith, g, w)) (λ b low high.
        laws.read-commit after size b (write_bytes-Begun state address 0 key r)
          (omega (arith, high, g))
        ∙ read-write_bytes state address 0 b key r (omega (arith, high, g)) (omega (arith, h, l)) w
            (ground (arith, apart, low, high, l)))

  -- The initialised storage.
  abbrev pub begun : EspStorage eeprom → EspStorage eeprom
  begun storage = initialize eeprom storage 512

  -- The flag of the class is only set where the EEPROM was begun; saving and reading begin with 512.
  abbrev pub IsStorage : EspStorage eeprom → Type 0
  IsStorage storage = if storage.init then laws.Begun storage.state size else size ≡ 512

  initialize-Begun :
      (init : Bool) (state : eeprom.State)
      → IsStorage (record { init = init; state = state })
      → laws.Begun (begun (record { init = init; state = state })).state size
  unfolding initialize
  initialize-Begun true state h = h
  initialize-Begun false state h = rw h (laws.begin-Begun state 512 (omega arith) (omega arith))

  saved :
      (storage : EspStorage eeprom) (address : ℕ) (key : List ℕ)
      → initialize eeprom (save_private_key eeprom storage address key).1 512 ≡ record {
        init = true;
        state = eeprom.commit (write_bytes eeprom (begun storage).state address 0 key);
      }
  unfolding save_private_key initialize
  saved storage address key = elim (Bool-cases storage.init) [
    | inl e ↦ rw e refl
    | inr e ↦ rw e refl
  ]

  -- For an EEPROM that works as documented once it was begun, a storage that was initialised with a
  -- size of at most 2 ^ 32 bytes, or one that was not and the size of 512, and a key of 32 bytes that
  -- fits in that size at its address: savePrivateKey returns SUCCESS, and after it readPrivateKey at
  -- that address returns SUCCESS and the key, and at an address in that size whose 32 bytes are all in
  -- front of the key or all behind it, what it returned before the key was saved.
  pub read_private_key-save_private_key :
      (storage : EspStorage eeprom) (address other : ℕ) (key : List ℕ)
      → IsStorage storage
      → All IsByte key
      → length key ≡ 32
      → address + 32 ≤ size
      → size ≤ 2 ^ 32
      → other + 32 ≤ size
      → other + 32 ≤ address ⊎ address + 32 ≤ other
      → let (ret, storage') = save_private_key eeprom storage address key in
        (ret ≡ success)
        × ((read_private_key eeprom storage' address).0 ≡ success)
        × ((read_private_key eeprom storage' address).1 ≡ key)
        × ((read_private_key eeprom storage' other).1 ≡ (read_private_key eeprom storage other).1)
  unfolding read_private_key
  read_private_key-save_private_key storage address other key i t l h w g apart =
      let before : eeprom.State = (begun storage).state in
      let r = initialize-Begun storage.init storage.state i in
      (
        (unfold save_private_key in refl),
        refl,
        ap (λ (s : EspStorage eeprom). read_bytes eeprom s.state address 0 32)
              (saved storage address key)
            ∙ committed-key before address key r t l h w,
        ap (λ (s : EspStorage eeprom). read_bytes eeprom s.state other 0 32)
              (saved storage address key)
            ∙ committed-other before address other key r l h w g apart,
      )

  -- For an EEPROM that works as documented in its state, of at most 2 ^ 32 bytes, which says after a
  -- commit that it is valid, and a key of 32 bytes that fits in it at its address: on the Nano 33 IoT savePrivateKey returns
  -- SUCCESS, and after it readPrivateKey returns SUCCESS and the key at that address, and at an address
  -- whose 32 bytes are all in front of the key or all behind it, SUCCESS and the bytes that were there
  -- before the key was saved.
  pub nano_read_private_key-nano_save_private_key :
      (state : eeprom.State) (address other : ℕ) (key old : List ℕ)
      → laws.Begun state size
      → ((s : eeprom.State) → eeprom.is_valid (eeprom.commit s) ≡ true)
      → All IsByte key
      → length key ≡ 32
      → address + 32 ≤ size
      → size ≤ 2 ^ 32
      → other + 32 ≤ size
      → other + 32 ≤ address ⊎ address + 32 ≤ other
      → let (ret, saved) = nano_save_private_key eeprom state address key in
        (ret ≡ success)
        × (nano_read_private_key eeprom saved address old ≡ (success, key))
        × (nano_read_private_key eeprom saved other old
            ≡ (success, read_bytes eeprom state other 0 32))
  unfolding nano_save_private_key nano_read_private_key
  nano_read_private_key-nano_save_private_key state address other key old r valid t l h w g apart =
      (
        refl,
        rw (valid (write_bytes eeprom state address 0 key))
            (rw (committed-key state address key r t l h w) refl),
        rw (valid (write_bytes eeprom state address 0 key))
            (rw (committed-other state address other key r l h w g apart) refl),
      )
