-- ===== src/Engine/Capture/Words.antt =====
-- Words in either byte order are read back from where they were written.
use marlinspike_dpi.Prelude.{
  ℕ, ◌^◌, ◌<◌, ◌≡◌, refl, sym, ap, ◌∙◌, Bool, true, false, List, [], ◌∷◌, ◌++◌, arith, length,
  length-append, take, drop, take-append, drop-append, ltb,
}
use marlinspike_dpi.Prelude.Bytes.{le_bytes, be_bytes}
use marlinspike_dpi.Engine.Capture.{
  got, failed, unexpected_eof, read_exact_or_eof, read_exact, read_u32,
}

abbrev pub write_u32 : Bool → ℕ → List ℕ
write_u32 true v = le_bytes 4 v
write_u32 false v = be_bytes 4 v

abbrev pub write_u16 : Bool → ℕ → List ℕ
write_u16 true v = le_bytes 2 v
write_u16 false v = be_bytes 2 v

-- Four words of 32 bits.
abbrev pub four_words : Bool → ℕ → ℕ → ℕ → ℕ → List ℕ
four_words little a b c d =
    write_u32 little a ++ (write_u32 little b ++ (write_u32 little c ++ write_u32 little d))

pub length-four_words : (little : Bool) (a b c d : ℕ) → length (four_words little a b c d) ≡ 16
length-four_words true a b c d = refl
length-four_words false a b c d = refl

pub four_words-read :
    (little : Bool) (a b c d : ℕ)
    → a < 2 ^ 32
    → b < 2 ^ 32
    → c < 2 ^ 32
    → d < 2 ^ 32
    → (read_u32 little (four_words little a b c d) 0 ≡ a)
      × (read_u32 little (four_words little a b c d) 4 ≡ b)
      × (read_u32 little (four_words little a b c d) 8 ≡ c)
      × (read_u32 little (four_words little a b c d) 12 ≡ d)
four_words-read true a b c d h k l m =
    (omega (arith, h), omega (arith, k), omega (arith, l), omega (arith, m))
four_words-read false a b c d h k l m =
    (omega (arith, h), omega (arith, k), omega (arith, l), omega (arith, m))

pub read_exact-append :
    (n : ℕ) (xs rest : List ℕ) → length xs ≡ n → read_exact n (xs ++ rest) ≡ got xs rest
unfolding read_exact
read_exact-append n xs rest h =
    let fits : ltb (length (xs ++ rest)) n ≡ false = ground (arith, h, length-append xs rest) in
    let front : take n (xs ++ rest) ≡ xs =
      sym (ap (λ k. take k (xs ++ rest)) h) ∙ take-append xs rest in
    let back : drop n (xs ++ rest) ≡ rest =
      sym (ap (λ k. drop k (xs ++ rest)) h) ∙ drop-append xs rest in
    rw (fits, front, back) refl

pub read_exact_or_eof-append :
    (n : ℕ) (x : ℕ) (xs rest : List ℕ)
    → length (x ∷ xs) ≡ n
    → read_exact_or_eof n ((x ∷ xs) ++ rest) ≡ got (x ∷ xs) rest
unfolding read_exact_or_eof read_exact
read_exact_or_eof-append n x xs rest h = read_exact-append n (x ∷ xs) rest h

pub read_exact-short :
    (n : ℕ) (xs : List ℕ) → length xs < n → read_exact n xs ≡ failed unexpected_eof
unfolding read_exact
read_exact-short n xs h = let few : ltb (length xs) n ≡ true = ground (arith, h) in rw few refl

pub read_exact_or_eof-short :
    (n : ℕ) (xs : List ℕ)
    → 0 < length xs
    → length xs < n
    → read_exact_or_eof n xs ≡ failed unexpected_eof
unfolding read_exact_or_eof
read_exact_or_eof-short n [] some_bytes h = absurd (omega (arith, some_bytes))
read_exact_or_eof-short n (x ∷ xs) some_bytes h =
    let few : ltb (length (x ∷ xs)) n ≡ true = ground (arith, h) in rw few refl
