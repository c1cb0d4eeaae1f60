-- ===== src/Responses/AccountMeta.antt =====
-- GetAccountResponse::fromJson of src/protobuf/pb_api.cpp. `blockIdentifier` it leaves as it is.
use iotex_arduino.Base.{ℕ, ◌+◌, ◌<◌, ◌≡◌, refl, arith, List, Bool, true, false, not, ◌&&◌, inl, inr}
use iotex_arduino.Base.{Option, none, some, codes, length, replicate, ◌==◌, if◌then◌else◌}
use iotex_arduino.Base.{Bool-cases, IsTerminatedArray, in_array, in_array-IsTerminatedArray}
use iotex_arduino.ResultCode.{
  ResultCode, success, error_json_parse, address_strlen, max_balance_strlen,
}
use iotex_arduino.Json.{JsonLibrary, copy_string, copy_string_cleared, accepts_string}

pub record AccountMeta : Type 0 where
  pub address : List ℕ
  pub balance : List ℕ
  pub nonce : List ℕ
  pub pending_nonce : List ℕ
  pub num_actions : List ℕ
  pub is_contract : Bool

-- The memsets.
unfoldable pub clear_account : AccountMeta → AccountMeta
clear_account meta = record meta {
  address = replicate (address_strlen + 1) 0;
  balance = replicate (max_balance_strlen + 1) 0;
}

abbrev pub IsAccountMeta : AccountMeta → Type 0
IsAccountMeta meta = IsTerminatedArray 42 meta.address × IsTerminatedArray 31 meta.balance

module _ (library : JsonLibrary) where
  -- From the nonce on, on the object `accountMeta`.
  unfoldable pub read_account_numbers : library.Json → AccountMeta → ResultCode × AccountMeta
  read_account_numbers json meta =
      let nonce = library.get_object_item json (codes "nonce") in
      let pending = library.get_object_item json (codes "pendingNonce") in
      let actions = library.get_object_item json (codes "numActions") in
      let contract = library.get_object_item json (codes "isContract") in
      let meta₁ = record meta { nonce = library.value_string nonce } in
      let meta₂ = record meta₁ { pending_nonce = library.value_string pending } in
      let meta₃ = record meta₂ { num_actions = library.value_string actions } in
      if not (accepts_string library nonce 0)
      then (error_json_parse, meta)
      else if not (accepts_string library pending 0)
      then (error_json_parse, meta₁)
      else if not (accepts_string library actions 0)
      then (error_json_parse, meta₂)
      else if not (library.is_bool contract)
      then (error_json_parse, meta₃)
      else (success, record meta₃ { is_contract = not (library.value_int contract == 0) })

  unfoldable pub read_account_balance :
      library.Json → AccountMeta → Option (ResultCode × AccountMeta)
  read_account_balance json meta =
      let balance = library.get_object_item json (codes "balance") in
      if not (accepts_string library balance max_balance_strlen)
      then some (error_json_parse, meta)
      else elim (copy_string meta.balance (library.value_string balance)) [
        | none ↦ none
        | some text ↦ some (read_account_numbers json (record meta { balance = text }))
      ]

  -- The result code and `accountMeta` after the call. A `none` is a write behind an array.
  unfoldable pub account_from_json : List ℕ → AccountMeta → Option (ResultCode × AccountMeta)
  account_from_json json_string meta =
      let root = library.parse json_string in
      let json = library.get_object_item root (codes "accountMeta") in
      let address = library.get_object_item json (codes "address") in
      let cleared = clear_account meta in
      if library.is_null root
      then some (error_json_parse, cleared)
      else if not (library.is_object json)
      then some (error_json_parse, cleared)
      else if not (accepts_string library address address_strlen)
      then some (error_json_parse, cleared)
      else elim (copy_string cleared.address (library.value_string address)) [
        | none ↦ none
        | some text ↦ read_account_balance json (record cleared { address = text })
      ]

  -- The members that a response must have, and what it then says.
  abbrev pub has_account_members : library.Json → Bool
  has_account_members json =
      accepts_string library (library.get_object_item json (codes "address")) 41
      && (accepts_string library (library.get_object_item json (codes "balance")) 30
          && (accepts_string library (library.get_object_item json (codes "nonce")) 0
              && (accepts_string library (library.get_object_item json (codes "pendingNonce")) 0
                  && (accepts_string library (library.get_object_item json (codes "numActions")) 0
                      && library.is_bool (library.get_object_item json (codes "isContract"))))))

  abbrev pub account_of : library.Json → AccountMeta
  account_of json =
      let text : List ℕ → List ℕ = λ key. library.value_string (library.get_object_item json key) in
      record {
        address = in_array 42 (text (codes "address"));
        balance = in_array 31 (text (codes "balance"));
        nonce = text (codes "nonce");
        pending_nonce = text (codes "pendingNonce");
        num_actions = text (codes "numActions");
        is_contract =
            not (library.value_int (library.get_object_item json (codes "isContract")) == 0);
      }

  short_value :
      (json : library.Json) (max_size : ℕ)
      → 0 < max_size
      → accepts_string library json max_size ≡ true
      → length (library.value_string json) < max_size + 1
  unfolding accepts_string
  short_value json max_size h e = ground arith

  -- What a run ends in: the values of the response, or an error and terminated arrays.
  abbrev pub EndsWell : Bool → library.Json → ResultCode × AccountMeta → Type 0
  EndsWell accepted json r =
      IsAccountMeta r.1
      × (if accepted then r ≡ (success, account_of json) else r.0 ≡ error_json_parse)

  read_account_numbers_lem :
      (json : library.Json) (meta : AccountMeta)
      → let r = read_account_numbers json meta in
        (r.1.address ≡ meta.address)
        × (r.1.balance ≡ meta.balance)
        × (if accepts_string library (library.get_object_item json (codes "nonce")) 0
              && (accepts_string library (library.get_object_item json (codes "pendingNonce")) 0
                  && (accepts_string library (library.get_object_item json (codes "numActions")) 0
                      && library.is_bool (library.get_object_item json (codes "isContract"))))
            then r ≡ (
              success,
              record (account_of json) { address = meta.address; balance = meta.balance },
            )
            else r.0 ≡ error_json_parse)
  unfolding read_account_numbers
  read_account_numbers_lem json meta =
      let get : List ℕ → library.Json = library.get_object_item json in
      elim (Bool-cases (accepts_string library (get (codes "nonce")) 0)) [
        | inr e ↦ rw e (refl, refl, refl)
        | inl e ↦ elim (Bool-cases (accepts_string library (get (codes "pendingNonce")) 0)) [
          | inr f ↦ rw e (rw f (refl, refl, refl))
          | inl f ↦ elim (Bool-cases (accepts_string library (get (codes "numActions")) 0)) [
            | inr g ↦ rw e (rw f (rw g (refl, refl, refl)))
            | inl g ↦ elim (Bool-cases (library.is_bool (get (codes "isContract")))) [
              | inr h ↦ rw e (rw f (rw g (rw h (refl, refl, refl))))
              | inl h ↦ rw e (rw f (rw g (rw h (refl, refl, refl))))
            ]
          ]
        ]
      ]

  read_account_balance_lem :
      (json : library.Json) (meta : AccountMeta)
      → meta.balance ≡ replicate 31 0
      → (r : ResultCode × AccountMeta) × (read_account_balance json meta ≡ some r)
        × (r.1.address ≡ meta.address)
        × IsTerminatedArray 31 r.1.balance
        × (if accepts_string library (library.get_object_item json (codes "balance")) 30
              && (accepts_string library (library.get_object_item json (codes "nonce")) 0
                  && (accepts_string library (library.get_object_item json (codes "pendingNonce")) 0
                      && (accepts_string library
                            (library.get_object_item json (codes "numActions"))
                            0
                          && library.is_bool (library.get_object_item json (codes "isContract")))))
            then r ≡ (success, record (account_of json) { address = meta.address })
            else r.0 ≡ error_json_parse)
  unfolding read_account_balance
  read_account_balance_lem json meta z =
      let balance : library.Json = library.get_object_item json (codes "balance") in
      let text : List ℕ = in_array 31 (library.value_string balance) in
      elim (Bool-cases (accepts_string library balance 30)) [
        | inr e ↦ ((error_json_parse, meta), rw e refl, refl, rw z (refl, refl), rw e refl)
        | inl e ↦
            let short = short_value balance 30 (omega arith) e in
            let (address_lem, balance_lem, values) =
              read_account_numbers_lem json (record meta { balance = text }) in
            (
              read_account_numbers json (record meta { balance = text }),
              rw e (
                  rw z (
                    rw
                      (copy_string_cleared 31 (library.value_string balance) (omega (arith, short)))
                      refl)),
              address_lem,
              rw balance_lem (
                  in_array-IsTerminatedArray (library.value_string balance) 31
                    (omega (arith, short))),
              rw e values,
            )
      ]

-- On a text that the parser does not read, GetAccountResponse::fromJson returns ERROR_JSON_PARSE and
-- leaves the two arrays cleared.
pub account_from_json-null :
    (library : JsonLibrary) (json_string : List ℕ) (meta : AccountMeta)
    → library.is_null (library.parse json_string) ≡ true
    → account_from_json library json_string meta ≡ some (error_json_parse, clear_account meta)
unfolding account_from_json
account_from_json-null library json_string meta n = rw n refl

-- On every JSON value that the parser returns for the text, GetAccountResponse::fromJson returns,
-- writes inside its two character arrays only, and leaves each of them at its size and with a
-- terminator in its last place. When `accountMeta` is an object with an address of at most 41
-- characters, a balance of at most 30, texts for the nonce, the pending nonce and the number of
-- actions, and a Boolean for the contract, it returns SUCCESS and these values; otherwise it returns
-- ERROR_JSON_PARSE.
pub account_from_json_lem :
    (library : JsonLibrary) (json_string : List ℕ) (meta : AccountMeta)
    → library.is_null (library.parse json_string) ≡ false
    → let json = library.get_object_item (library.parse json_string) (codes "accountMeta") in
      (r : ResultCode × AccountMeta) × (account_from_json library json_string meta ≡ some r)
      × IsAccountMeta r.1
      × (if library.is_object json && has_account_members library json
          then r ≡ (success, account_of library json)
          else r.0 ≡ error_json_parse)
unfolding account_from_json clear_account
account_from_json_lem library json_string meta n =
    let json : library.Json =
      library.get_object_item (library.parse json_string) (codes "accountMeta") in
    let address : library.Json = library.get_object_item json (codes "address") in
    elim (Bool-cases (library.is_object json)) [
      | inr e ↦ (
        (error_json_parse, clear_account meta),
        rw n (rw e refl),
        ((refl, refl), (refl, refl)),
        rw e refl,
      )
      | inl e ↦ elim (Bool-cases (accepts_string library address 41)) [
        | inr f ↦ (
          (error_json_parse, clear_account meta),
          rw n (rw e (rw f refl)),
          ((refl, refl), (refl, refl)),
          rw e (rw f refl),
        )
        | inl f ↦
            let short = short_value library address 41 (omega arith) f in
            let text : List ℕ = in_array 42 (library.value_string address) in
            let (r, run, address_lem, balance_lem, values) =
              read_account_balance_lem library json (record (clear_account meta) { address = text })
                refl in
            (
              r,
              rw n (
                  rw e (
                    rw f (
                      rw
                        (copy_string_cleared 42 (library.value_string address)
                          (omega (arith, short)))
                        run))),
              (
                rw address_lem (
                    in_array-IsTerminatedArray (library.value_string address) 42
                      (omega (arith, short))),
                balance_lem,
              ),
              rw e (rw f values),
            )
      ]
    ]
