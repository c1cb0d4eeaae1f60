-- ===== src/Account/Construct.antt =====
-- The constructors of src/account/account.cpp, over the generator of the platform.
use iotex_arduino.Base.{ℕ, ◌≤◌, ◌≡◌, refl, arith, List, ◌++◌, Option, none, some, ◌>>=◌}
use iotex_arduino.Base.{
  length, take, drop, leb, if◌then◌else◌, length-append, length-drop, take-all,
}
use iotex_arduino.ResultCode.{private_key_size}
use iotex_arduino.Json.{copy_string}
use iotex_arduino.Signer.{Crypto}
use iotex_arduino.Random.{RandomGenerator, ByteSource, os_random, fill_bytes}
use iotex_arduino.Account.{Account, generate_addresses_from_private_key}
use iotex_arduino.Account.Addresses.{IsHash, account_addresses_lem}

module _ (crypto : Crypto) where
  -- The constructor for a key: a memcpy of its 32 bytes.
  unfoldable pub account_of_key : List ℕ → Option Account
  account_of_key key =
      if leb private_key_size (length key)
      then generate_addresses_from_private_key crypto (take private_key_size key)
      else none

  -- The constructor without a key. `memory` is what the array for the key holds before.
  unfoldable pub account_new : (g : RandomGenerator) → g.State → List ℕ → Option (g.State × Account)
  account_new g s memory = do
    filled ← g.fill_random s memory private_key_size
    account ← generate_addresses_from_private_key crypto filled.1
    some (filled.0, account)

  -- The constructor with the dependencies, whose key may be null.
  unfoldable pub account_with :
      (g : RandomGenerator) → g.State → Option (List ℕ) → List ℕ → Option (g.State × Account)
  account_with g s none memory = account_new g s memory
  account_with g s (some key) memory = do account ← account_of_key key; some (s, account)

-- A read of at most the bytes that were asked for.
pub record IsByteSource (source : ByteSource) : Type 0 where
  pub length_lem : (seed : source.Seed) (size : ℕ) → length (source.fill seed size).1 ≤ size

account_new-fill :
    (crypto : Crypto) (g : RandomGenerator) (s s' : g.State) (memory key : List ℕ)
    (account : Account)
    → g.fill_random s memory 32 ≡ some (s', key)
    → generate_addresses_from_private_key crypto key ≡ some account
    → account_new crypto g s memory ≡ some (s', account)
unfolding account_new
account_new-fill crypto g s s' memory key account f a = rw f (rw a refl)

account_of_key-whole :
    (crypto : Crypto) (key : List ℕ)
    → length key ≡ 32
    → account_of_key crypto key ≡ generate_addresses_from_private_key crypto key
unfolding account_of_key
account_of_key-whole crypto key h =
    let e : take 32 key ≡ key = take-all key 32 (omega (arith, h)) in ground (arith, h, e)

fill_bytes-fill :
    (source : ByteSource) (seed : source.Seed) (memory : List ℕ) (size : ℕ)
    → length (source.fill seed size).1 ≤ length memory
    → fill_bytes source seed memory size
      ≡ some (
        (source.fill seed size).0,
        (source.fill seed size).1 ++ drop (length (source.fill seed size).1) memory,
      )
unfolding fill_bytes copy_string
fill_bytes-fill source seed memory size h = ground (arith, h)

account_key :
    (crypto : Crypto) (key : List ℕ) (account : Account)
    → generate_addresses_from_private_key crypto key ≡ some account
    → account.private_key ≡ key
unfolding generate_addresses_from_private_key
account_key crypto key account h = ground (arith, h)

-- For a hash of 32 bytes and a source that gives at most the bytes asked for, an account without a
-- key on the OS is the account for the key of the bytes that were read and, behind them, of those
-- that its memory held before: the whole key when the device does not open.
pub account_new-os_random :
    (crypto : Crypto) (source : ByteSource) (seed : source.Seed) (memory : List ℕ)
    → IsHash crypto
    → IsByteSource source
    → length memory ≡ 32
    → (account : Account) × (account_new crypto (os_random source) seed memory
        ≡ some ((source.fill seed 32).0, account))
      × (account_of_key crypto
            ((source.fill seed 32).1 ++ drop (length (source.fill seed 32).1) memory)
          ≡ some account)
      × (account.private_key
          ≡ (source.fill seed 32).1 ++ drop (length (source.fill seed 32).1) memory)
account_new-os_random crypto source seed memory hash laws size =
    let read : List ℕ = (source.fill seed 32).1 in
    let short : length read ≤ 32 = laws.length_lem seed 32 in
    let key : List ℕ = read ++ drop (length read) memory in
    let whole : length key ≡ 32 =
      omega
        (arith, length-append read (drop (length read) memory), length-drop (length read) memory) in
    let made = account_addresses_lem crypto key hash in
    (
      made.0,
      account_new-fill crypto (os_random source) seed (source.fill seed 32).0 memory key (made.0)
          (fill_bytes-fill source seed memory 32 (omega (arith, short, size))) (made.2),
      rw (account_of_key-whole crypto key whole) (made.2),
      account_key crypto key (made.0) (made.2),
    )
