-- ===== src/Bech32/Charset.antt =====
-- CHARSET and CHARSET_REV are inverse tables.
use iotex_arduino.Base.{ℕ, ◌≤◌, ◌<◌, ◌≡◌, refl, arith, Bool, true, false, ◌&&◌, not}
use iotex_arduino.Base.{Option, none, some, List, [], ◌∷◌, All, map}
use iotex_arduino.Base.{get_elem?, get_or, leb, leb→le, ◌==◌, holds_below, holds_below→test}
use iotex_arduino.Bech32.{charset, charset_rev, to_chars, read_values, values_read, is_upper}
use iotex_arduino.Bech32.Checksum.{IsGroup}

is_some_at : Option ℕ → ℕ → Bool
is_some_at none v = false
is_some_at (some w) v = w == v

is_some_at→eq : (o : Option ℕ) (v : ℕ) → is_some_at o v ≡ true → o ≡ some v
unfolding is_some_at
is_some_at→eq none v h = cc
is_some_at→eq (some w) v h = ground arith

pub symbol : ℕ → ℕ
symbol d = get_or charset d 0

-- What a character of the data part satisfies.
pub record IsSymbol (c : ℕ) : Type 0 where
  pub printable : (33 ≤ c) × (c ≤ 126)
  pub not_upper : is_upper c ≡ false
  pub not_separator : (c == b'1') ≡ false

symbol_test : ℕ → Bool
symbol_test d =
    is_some_at (get_elem? charset d) (symbol d)
    && (is_some_at (get_elem? charset_rev (symbol d)) d
        && (leb 33 (symbol d)
            && (leb (symbol d) 126 && (not (is_upper (symbol d)) && not (symbol d == b'1')))))

symbol_table : holds_below symbol_test 32 ≡ true
unfolding holds_below symbol_test symbol is_some_at charset charset_rev
symbol_table = refl

symbol_test-true : (d : ℕ) → d < 32 → symbol_test d ≡ true
symbol_test-true d h = holds_below→test symbol_test 32 d symbol_table h

&&_parts : (a b : Bool) → (a && b) ≡ true → (a ≡ true) × (b ≡ true)
&&_parts a b h = ground arith

not-true : (a : Bool) → not a ≡ true → a ≡ false
not-true a h = ground arith

pub get-charset : (d : ℕ) → d < 32 → get_elem? charset d ≡ some (symbol d)
unfolding symbol_test
get-charset d h = is_some_at→eq _ _ (&&_parts _ _ (symbol_test-true d h)).0

pub get-charset_rev : (d : ℕ) → d < 32 → get_elem? charset_rev (symbol d) ≡ some d
unfolding symbol_test
get-charset_rev d h = is_some_at→eq _ _ (&&_parts _ _ (&&_parts _ _ (symbol_test-true d h)).1).0

pub symbol-IsSymbol : (d : ℕ) → d < 32 → IsSymbol (symbol d)
unfolding symbol_test
symbol-IsSymbol d h =
    let rest = (&&_parts _ _ (&&_parts _ _ (symbol_test-true d h)).1).1 in
    let low = &&_parts _ _ rest in
    let high = &&_parts _ _ low.1 in
    let case = &&_parts _ _ high.1 in
    record {
      printable = (leb→le 33 (symbol d) low.0, leb→le (symbol d) 126 high.0);
      not_upper = not-true _ case.0;
      not_separator = not-true _ case.1;
    }

pub to_chars_lem : (vs : List ℕ) → All IsGroup vs → to_chars vs ≡ some (map symbol vs)
unfolding to_chars
to_chars_lem [] h = refl
to_chars_lem (v ∷ vs) (h, hs) = ground (arith, get-charset v h, to_chars_lem vs hs)

pub read_values-symbols :
    (vs : List ℕ) → All IsGroup vs → read_values (map symbol vs) ≡ values_read vs
unfolding read_values
read_values-symbols [] h = refl
read_values-symbols (v ∷ vs) (h, hs) =
    ground (arith, get-charset_rev v h, read_values-symbols vs hs)

pub symbols-IsSymbol : (vs : List ℕ) → All IsGroup vs → All IsSymbol (map symbol vs)
symbols-IsSymbol [] h = tt
symbols-IsSymbol (v ∷ vs) (h, hs) = (symbol-IsSymbol v h, symbols-IsSymbol vs hs)
