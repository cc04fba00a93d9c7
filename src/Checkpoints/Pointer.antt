-- ===== src/Checkpoints/Pointer.antt =====
-- The pointer files: which versions survive the way through the text.
use apollo_mavis_v2_runtime.Prelude.{
  ℕ, zero, suc, ◌+◌, ◌-◌, ◌*◌, ◌/◌, ◌%◌, ◌<◌, ◌≤◌, ◌≡◌, refl, ◌∙◌, ap, true, false, List, [], ◌∷◌,
  ◌++◌, none, some, ltb, ◌==◌, if◌then◌else◌, length, all, arith,
}
use apollo_mavis_v2_runtime.Checkpoints.{
  digits_on, keep_unless_end, zeros, padded, is_space, strip_left, strip_right, strip, is_digit,
  value_on, version_of, pointer_text, read_pointer,
}

value_on-digits_on :
    (fuel n : ℕ) (acc : List ℕ) → n < fuel → value_on 0 (digits_on fuel n acc) ≡ value_on n acc
unfolding digits_on value_on
value_on-digits_on zero n acc h = elim h [ ]
value_on-digits_on (suc fuel) n acc h =
    ground (arith, value_on-digits_on fuel (n / 10) ((n % 10 + b'0') ∷ acc))

all-digits_on :
    (fuel n : ℕ) (acc : List ℕ)
    → n < fuel
    → all is_digit acc ≡ true
    → all is_digit (digits_on fuel n acc) ≡ true
unfolding digits_on
all-digits_on zero n acc h a = elim h [ ]
all-digits_on (suc fuel) n acc h a =
    ground (arith, all-digits_on fuel (n / 10) ((n % 10 + b'0') ∷ acc))

-- 10 ^ k
abbrev ten_to : ℕ → ℕ
ten_to zero = 1
ten_to (suc k) = 10 * ten_to k

ten_to_pos : (k : ℕ) → 1 ≤ ten_to k
ten_to_pos zero = omega arith
ten_to_pos (suc k) = omega (arith, ten_to_pos k)

length-digits_on_le :
    (k fuel n : ℕ) (acc : List ℕ)
    → n < fuel
    → n < ten_to (suc k)
    → length (digits_on fuel n acc) ≤ suc k + length acc
unfolding digits_on
length-digits_on_le k zero n acc h b = elim h [ ]
length-digits_on_le zero (suc fuel) n acc h b = ground arith
length-digits_on_le (suc k) (suc fuel) n acc h b =
    ground (arith, length-digits_on_le k fuel (n / 10) ((n % 10 + b'0') ∷ acc))

length-digits_on_ge :
    (k fuel n : ℕ) (acc : List ℕ)
    → n < fuel
    → ten_to k ≤ n
    → suc k + length acc ≤ length (digits_on fuel n acc)
unfolding digits_on
length-digits_on_ge k zero n acc h b = elim h [ ]
length-digits_on_ge zero (suc fuel) n acc h b =
    ground (arith, longer fuel (n / 10) ((n % 10 + b'0') ∷ acc))
  where
    longer : (fuel n : ℕ) (acc : List ℕ) → length acc ≤ length (digits_on fuel n acc)
    longer zero n acc = omega arith
    longer (suc fuel) n acc = ground (arith, longer fuel (n / 10) ((n % 10 + b'0') ∷ acc))
length-digits_on_ge (suc k) (suc fuel) n acc h b =
    ground (arith, length-digits_on_ge k fuel (n / 10) ((n % 10 + b'0') ∷ acc), ten_to_pos k)

value_on-zeros : (k : ℕ) (ds : List ℕ) → value_on 0 (zeros k ++ ds) ≡ value_on 0 ds
unfolding value_on
value_on-zeros zero ds = refl
value_on-zeros (suc k) ds = value_on-zeros k ds

all-zeros : (k : ℕ) (ds : List ℕ) → all is_digit ds ≡ true → all is_digit (zeros k ++ ds) ≡ true
all-zeros zero ds h = h
all-zeros (suc k) ds h = all-zeros k ds h

length-zeros : (k : ℕ) (ds : List ℕ) → length (zeros k ++ ds) ≡ k + length ds
length-zeros zero ds = omega arith
length-zeros (suc k) ds = omega (arith, length-zeros k ds)

digit-not_space : (d : ℕ) → is_digit d ≡ true → is_space d ≡ false
unfolding is_space
digit-not_space d h = ground arith

strip_right-digits : (ds : List ℕ) → all is_digit ds ≡ true → strip_right (ds ++ 10 ∷ []) ≡ ds
unfolding strip_right
strip_right-digits [] h = refl
strip_right-digits (d ∷ []) h = ground (arith, digit-not_space d)
strip_right-digits (d ∷ e ∷ ds) h = ground (arith, strip_right-digits (e ∷ ds))

all-padded : (n : ℕ) → all is_digit (padded n) ≡ true
unfolding padded
all-padded n =
    all-zeros (6 - length (digits_on (suc n) n [])) (digits_on (suc n) n [])
      (all-digits_on (suc n) n [] (omega arith) refl)

value_on-padded : (n : ℕ) → value_on 0 (padded n) ≡ n
unfolding padded value_on
value_on-padded n =
    value_on-zeros (6 - length (digits_on (suc n) n [])) (digits_on (suc n) n [])
    ∙ value_on-digits_on (suc n) n [] (omega arith)

-- Six digits up to 999 999, and more from there on.
length-padded : (n : ℕ) → (length (padded n) == 6) ≡ ltb n 1_000_000
unfolding padded
length-padded n = ground (
  arith,
  length-zeros (6 - length (digits_on (suc n) n [])) (digits_on (suc n) n []),
  length-digits_on_le 5 (suc n) n [],
  length-digits_on_ge 6 (suc n) n [],
)

-- The letter stays, whatever stands behind it.
strip_right-letter : (cs : List ℕ) → strip_right (b'v' ∷ cs) ≡ b'v' ∷ strip_right cs
unfolding strip_right
strip_right-letter [] = refl
strip_right-letter (c ∷ cs) = keep (strip_right (c ∷ cs))
  where
    keep : (ds : List ℕ) → keep_unless_end b'v' ds ≡ b'v' ∷ ds
    keep [] = refl
    keep (d ∷ ds) = refl

strip-pointer_text : (version : ℕ) → strip (pointer_text version) ≡ b'v' ∷ padded version
unfolding pointer_text
strip-pointer_text version =
    strip-letter (padded version ++ 10 ∷ [])
    ∙ ap (◌∷◌ b'v') (strip_right-digits (padded version) (all-padded version))
  where
    strip-letter : (cs : List ℕ) → strip (b'v' ∷ cs) ≡ b'v' ∷ strip_right cs
    strip-letter cs = unfold strip strip_left is_space in strip_right-letter cs

-- A version written to a pointer file is read back up to 999 999. A larger one has seven digits or
-- more, which `_VERSION_RE` does not match, and the pointer reads as missing.
pub read-pointer_text :
    (version : ℕ)
    → read_pointer (some (pointer_text version))
      ≡ (if ltb version 1_000_000 then some version else none)
unfolding read_pointer version_of
read-pointer_text version =
    rw
      (
        strip-pointer_text version,
        length-padded version,
        all-padded version,
        value_on-padded version,
      )
      (ground arith)
