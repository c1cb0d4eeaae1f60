-- ===== src/Bech32/Linear.antt =====
-- PolyMod is linear in what the loop has not yet shifted out: the algebra behind the checksum.
use native.Mathlib.Nat.{mod-eq_of_lt, div-eq_of_lt}
use iotex_arduino.Base.{ℕ, ◌+◌, ◌*◌, ◌/◌, ◌%◌, ◌^◌, ◌<◌, ◌≡◌, refl, sym, ap, ◌∙◌, arith}
use iotex_arduino.Base.{List, [], ◌∷◌, ◌++◌, inl, inr, Bool-cases, ◌==◌, All, IsByte}
use iotex_arduino.Bits.{bit_and, bit_xor, xor_assoc, xor_comm, zero-xor, xor-div, xor-mod, xor-mul}
use iotex_arduino.Bits.{xor_fields, xor-lt, and_mask}
use iotex_arduino.Bech32.{add_term, add_generator, poly_step, poly_loop}

xor_right : (x y k : ℕ) → bit_xor (bit_xor x y) k ≡ bit_xor (bit_xor x k) y
xor_right x y k = cc (xor_assoc x y k, xor_assoc x k y, xor_comm y k)

xor-zero : (a : ℕ) → bit_xor a 0 ≡ a
xor-zero a = xor_comm a 0 ∙ zero-xor a

add_term-xor :
    (c0 bit k x y : ℕ) → add_term c0 bit k (bit_xor x y) ≡ bit_xor (add_term c0 bit k x) y
add_term-xor c0 bit k x y = elim (Bool-cases (bit_and c0 bit == 0)) [
  | inl e ↦ rw e
  | inr e ↦ rw e (xor_right x y k)
]

add_generator-xor : (c0 x y : ℕ) → add_generator c0 (bit_xor x y) ≡ bit_xor (add_generator c0 x) y
unfolding add_generator
add_generator-xor c0 x y = rw (
  add_term-xor c0 1 0x3b6a57b2 x y,
  add_term-xor c0 2 0x26508e6d _ y,
  add_term-xor c0 4 0x1ea119fa _ y,
  add_term-xor c0 8 0x3d4233dd _ y,
  add_term-xor c0 16 0x2a1462b3 _ y,
)

add_term-lt : (c0 bit k x : ℕ) → k < 2 ^ 30 → x < 2 ^ 30 → add_term c0 bit k x < 2 ^ 30
add_term-lt c0 bit k x hk hx = elim (Bool-cases (bit_and c0 bit == 0)) [
  | inl e ↦ rw e hx
  | inr e ↦ rw e (xor-lt 30 x k hx hk)
]

add_generator-lt : (c0 x : ℕ) → x < 2 ^ 30 → add_generator c0 x < 2 ^ 30
unfolding add_generator
add_generator-lt c0 x h = add_term-lt c0 16 0x2a1462b3 _ (omega arith) (
    add_term-lt c0 8 0x3d4233dd _ (omega arith) (
      add_term-lt c0 4 0x1ea119fa _ (omega arith) (
        add_term-lt c0 2 0x26508e6d _ (omega arith)
          (add_term-lt c0 1 0x3b6a57b2 x (omega arith) h))))

-- The masked and shifted part of a round, in plain arithmetic.
shifted : ℕ → ℕ
shifted c = bit_and c 0x1ffffff * 2 ^ 5 % 2 ^ 32

shifted_lem : (c : ℕ) → shifted c ≡ c % 2 ^ 25 * 2 ^ 5
unfolding shifted
shifted_lem c = omega (arith, and_mask 25 c)

shifted-xor : (a b : ℕ) → b < 2 ^ 25 → shifted (bit_xor a b) ≡ bit_xor (shifted a) (b * 2 ^ 5)
shifted-xor a b h =
    shifted_lem (bit_xor a b)
    ∙ ap (λ (t : ℕ). t * 2 ^ 5) (xor-mod 25 a b ∙ ap (bit_xor (a % 2 ^ 25)) (mod-eq_of_lt h))
    ∙ sym (xor-mul 5 (a % 2 ^ 25) b)
    ∙ ap (λ (t : ℕ). bit_xor t (b * 2 ^ 5)) (sym (shifted_lem a))

pub poly_step-lt : (c v : ℕ) → v < 2 ^ 30 → poly_step c v < 2 ^ 30
unfolding poly_step
poly_step-lt c v h = add_generator-lt _ _ (xor-lt 30 _ v (omega (arith, and_mask 25 c)) h)

pub poly_loop-lt : (c : ℕ) (vs : List ℕ) → c < 2 ^ 30 → All IsByte vs → poly_loop c vs < 2 ^ 30
unfolding poly_loop
poly_loop-lt c [] h b = h
poly_loop-lt c (v ∷ vs) h (b, bs) =
    poly_loop-lt (poly_step c v) vs (poly_step-lt c v (omega arith)) bs

-- A difference `b` in the low 25 bits and an input v only move up in one round.
poly_step-xor :
    (a b v : ℕ)
    → b < 2 ^ 25
    → v < 2 ^ 5
    → poly_step (bit_xor a b) v ≡ bit_xor (poly_step a 0) (b * 2 ^ 5 + v)
unfolding poly_step
poly_step-xor a b v hb hv =
    rw (top, inner)
      (add_generator-xor (a / 2 ^ 25 % 2 ^ 8) (bit_xor (bit_and a 0x1ffffff * 2 ^ 5 % 2 ^ 32) 0) _)
  where
    top : bit_xor a b / 2 ^ 25 % 2 ^ 8 ≡ a / 2 ^ 25 % 2 ^ 8
    top = rw (xor-div 25 a b, div-eq_of_lt hb, xor-zero (a / 2 ^ 25))

    inner :
        bit_xor (bit_and (bit_xor a b) 0x1ffffff * 2 ^ 5 % 2 ^ 32) v
        ≡ bit_xor (bit_xor (bit_and a 0x1ffffff * 2 ^ 5 % 2 ^ 32) 0) (b * 2 ^ 5 + v)
    inner =
        unfold shifted in
        cc (
          shifted-xor a b hb,
          xor_assoc (shifted a) (b * 2 ^ 5) v,
          xor_fields 5 b v hv,
          xor-zero (shifted a),
        )

-- The same for a value that is known to be such an exclusive or.
carry :
    (x a b v : ℕ)
    → x ≡ bit_xor a b
    → b < 2 ^ 25
    → v < 2 ^ 5
    → poly_step x v ≡ bit_xor (poly_step a 0) (b * 2 ^ 5 + v)
carry x a b v e hb hv = rw e (poly_step-xor a b v hb hv)

-- Six groups of five bits as one number, the first on top.
abbrev pub pack_six : ℕ → ℕ → ℕ → ℕ → ℕ → ℕ → ℕ
pack_six u v w x y z = ((((u * 32 + v) * 32 + w) * 32 + x) * 32 + y) * 32 + z

-- The last six inputs are added to what six zeroes give.
pub poly_loop-six :
    (c u v w x y z : ℕ)
    → u < 32
    → v < 32
    → w < 32
    → x < 32
    → y < 32
    → z < 32
    → poly_loop c (u ∷ v ∷ w ∷ x ∷ y ∷ z ∷ [])
      ≡ bit_xor (poly_loop c (0 ∷ 0 ∷ 0 ∷ 0 ∷ 0 ∷ 0 ∷ [])) (pack_six u v w x y z)
unfolding poly_loop
poly_loop-six c u v w x y z hu hv hw hx hy hz =
    carry _ _ _ z
      (carry _ _ _ y (carry _ _ _ x (carry _ _ _ w (carry _ _ _ v first h1 hv) h2 hw) h3 hx) h4 hy)
      h5 hz
  where
    first : poly_step c u ≡ bit_xor (poly_step c 0) u
    first =
        (rw (xor-zero c) at (poly_step-xor c 0 u (omega arith) hu))
        ∙ ap (bit_xor (poly_step c 0)) (omega arith)

    h1 : u < 2 ^ 25
    h1 = omega arith

    h2 : u * 32 + v < 2 ^ 25
    h2 = omega arith

    h3 : (u * 32 + v) * 32 + w < 2 ^ 25
    h3 = omega arith

    h4 : ((u * 32 + v) * 32 + w) * 32 + x < 2 ^ 25
    h4 = omega arith

    h5 : (((u * 32 + v) * 32 + w) * 32 + x) * 32 + y < 2 ^ 25
    h5 = omega arith

pub poly_loop-append :
    (c : ℕ) (xs ys : List ℕ) → poly_loop c (xs ++ ys) ≡ poly_loop (poly_loop c xs) ys
unfolding poly_loop
poly_loop-append c [] ys = refl
poly_loop-append c (x ∷ xs) ys = poly_loop-append (poly_step c x) xs ys
