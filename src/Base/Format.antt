-- ===== src/Base/Format.antt =====
-- What the program uses of `fmt.Sprintf("%0wd", n)`: an `int`, padded with zeros to `w` places.
use Prim.Native.Nat.{ℕ, zero, suc, ◌+◌, ◌-◌, ◌*◌, ◌/◌, ◌%◌, ◌^◌, ◌<◌}
use Prim.Native.Char.{Char, code}
use Prim.Native.String.{String}
use mathlib.Core.Path.{◌≡◌, refl, ap, ◌∙◌}
use mathlib.Core.Logic.{inl, inr}
use native.Mathlib.Nat.{pow-suc}
use mathlib.Core.Bool.{◌&&◌}
use native.Mathlib.Omega.{arith}
use cirrus_sim.Base.Tests.{ltb, lt→ltb, nat_beq, Bool-cases, if◌then◌else◌}
use cirrus_sim.Base.Int64.{Int64, two63, two64}

digit : ℕ → Char
digit zero = "0"
digit (suc zero) = "1"
digit (suc (suc zero)) = "2"
digit (suc (suc (suc zero))) = "3"
digit (suc (suc (suc (suc zero)))) = "4"
digit (suc (suc (suc (suc (suc zero))))) = "5"
digit (suc (suc (suc (suc (suc (suc zero)))))) = "6"
digit (suc (suc (suc (suc (suc (suc (suc zero))))))) = "7"
digit (suc (suc (suc (suc (suc (suc (suc (suc zero)))))))) = "8"
digit _ = "9"

-- The digits of `n`, at least `w` of them, in front of `acc`; each round writes one digit.
decimal : ℕ → ℕ → ℕ → String → String
unfolding digit
decimal zero w n acc = acc
decimal (suc f) w n acc =
    let more = decimal f (w - 1) (n / 10) (String.◌∷◌ (digit (n % 10)) acc) in
    if nat_beq n 0 && nat_beq w 0 then acc else more

-- Twenty rounds are enough for a 64-bit number.
unfoldable pub pad : ℕ → Int64 → String
unfolding decimal
pad w n =
    if ltb n two63
    then decimal 20 w n String.[]
    else String.◌∷◌ "-" (decimal 20 (w - 1) (two64 - n) String.[])

-- `%0wd` of a `uint64`
unfoldable pub pad_unsigned : ℕ → ℕ → String
unfolding decimal
pad_unsigned w n = decimal 20 w n String.[]

-- The number that a text of digits stands for, read behind `a`.
value : ℕ → String → ℕ
value a String.[] = a
value a (String.◌∷◌ c s) = value (a * 10 + (code c - 48)) s

code-digit : (d : ℕ) → d < 10 → code (digit d) - 48 ≡ d
unfolding digit
code-digit zero h = refl
code-digit (suc zero) h = refl
code-digit (suc (suc zero)) h = refl
code-digit (suc (suc (suc zero))) h = refl
code-digit (suc (suc (suc (suc zero)))) h = refl
code-digit (suc (suc (suc (suc (suc zero))))) h = refl
code-digit (suc (suc (suc (suc (suc (suc zero)))))) h = refl
code-digit (suc (suc (suc (suc (suc (suc (suc zero))))))) h = refl
code-digit (suc (suc (suc (suc (suc (suc (suc (suc zero)))))))) h = refl
code-digit (suc (suc (suc (suc (suc (suc (suc (suc (suc zero))))))))) h = refl
code-digit (suc (suc (suc (suc (suc (suc (suc (suc (suc (suc d)))))))))) h = absurd (omega arith)

-- With a round for each digit, the text written reads back as the number.
value-decimal : (f w n : ℕ) (acc : String) → n < 10 ^ f → value 0 (decimal f w n acc) ≡ value n acc
unfolding decimal value
value-decimal zero w n acc h = let e : 0 ≡ n = omega arith in ap (λ m. value m acc) e
value-decimal (suc f) w n acc h =
    let digit_acc = String.◌∷◌ (digit (n % 10)) acc in
    let small : n < 10 ^ f * 10 = rw pow-suc at h in
    let ih : value 0 (decimal f (w - 1) (n / 10) digit_acc) ≡ value (n / 10) digit_acc =
      value-decimal f (w - 1) (n / 10) digit_acc (omega arith) in
    let back : n / 10 * 10 + (code (digit (n % 10)) - 48) ≡ n =
      omega (arith, code-digit (n % 10) (omega arith)) in
    elim (Bool-cases (nat_beq n 0 && nat_beq w 0)) [
      | inl done ↦ let e : n ≡ 0 = ground arith in rw (done, e)
      | inr more ↦ rw more (ih ∙ ap (λ m. value m acc) back)
    ]

-- The number that a padded text of digits stands for.
pub number_of : String → ℕ
unfolding value
number_of s = value 0 s

pub number_of-pad : (w : ℕ) (n : Int64) → n < two63 → number_of (pad w n) ≡ n
unfolding number_of pad
number_of-pad w n h = rw (lt→ltb n two63 h) (value-decimal 20 w n String.[] (omega arith))

hex_digit : ℕ → Char
unfolding digit
hex_digit d =
    if ltb d 10
    then digit d
    else if nat_beq d 10
    then "a"
    else if nat_beq d 11
    then "b"
    else if nat_beq d 12
    then "c"
    else if nat_beq d 13
    then "d"
    else if nat_beq d 14
    then "e"
    else "f"

-- `%0wx` of an unsigned number below 16 ^ f
unfoldable pub hexadecimal : ℕ → ℕ → ℕ → String → String
unfolding hex_digit
hexadecimal zero w n acc = acc
hexadecimal (suc f) w n acc =
    let more = hexadecimal f (w - 1) (n / 16) (String.◌∷◌ (hex_digit (n % 16)) acc) in
    if nat_beq n 0 && nat_beq w 0 then acc else more
