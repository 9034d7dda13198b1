-- ===== src/Decoder/Str/Scan.antt =====
-- The search for the null terminator of a string.
use mathlib.Core.Path.{subst}
use native.Mathlib.Nat.{mul-le-mul_right}
use actf.Common.{
  ℕ, zero, suc, ◌+◌, ◌-◌, ◌*◌, ◌≤◌, ◌<◌, ◌≡◌, refl, sym, ap, ◌∙◌, Bool, Bool-cases, inl, inr, true,
  false, ltb, ◌==◌, Option, none, some, List, [], ◌∷◌, arith,
}
use actf.Common.Lists.{get_elem?, get_or, length}
use actf.Decoder.Str.{
  Encoding, utf8, utf16be, utf16le, utf32be, utf32le, Term, found, absent, out_of_bounds,
  encoding_to_codepoint_size, tested, zero_run, scanned, scan, find_null_term,
}

-- `cnt` bytes from byte `i` on are 0.
abbrev pub Zeros : List ℕ → ℕ → ℕ → Type 0
Zeros bytes i cnt = (j : ℕ) → j < cnt → get_or bytes (i + j) 0 ≡ 0

get_elem-inside :
    (bytes : List ℕ) (i : ℕ) → i < length bytes → get_elem? bytes i ≡ some (get_or bytes i 0)
get_elem-inside [] i h = absurd (omega arith)
get_elem-inside (b ∷ bytes) zero h = refl
get_elem-inside (b ∷ bytes) (suc i) h = get_elem-inside bytes i (omega arith)

-- What a run of bytes inside the stream is found to be.
abbrev RunOf : List ℕ → ℕ → ℕ → Option Bool → Type 0
RunOf bytes i cnt none = ⊥
RunOf bytes i cnt (some true) = Zeros bytes i cnt
RunOf bytes i cnt (some false) = ¬ (Zeros bytes i cnt)

-- One more byte in front of a run.
longer :
    (bytes : List ℕ) (i cnt : ℕ) (r : Option Bool)
    → get_or bytes i 0 ≡ 0
    → RunOf bytes (suc i) cnt r
    → RunOf bytes i (suc cnt) r
longer bytes i cnt none z h = h
longer bytes i cnt (some true) z h = first
  where
    first : Zeros bytes i (suc cnt)
    first zero l = ap (λ (t : ℕ). get_or bytes t 0) (omega arith) ∙ z
    first (suc j) l = ap (λ (t : ℕ). get_or bytes t 0) (omega arith) ∙ h j (omega arith)
longer bytes i cnt (some false) z h =
    λ all. h (λ j l. ap (λ (t : ℕ). get_or bytes t 0) (omega arith) ∙ all (suc j) (omega arith))

zero_run-RunOf :
    (bytes : List ℕ) (i cnt : ℕ) → i + cnt ≤ length bytes → RunOf bytes i cnt (zero_run bytes i cnt)
unfolding zero_run
zero_run-RunOf bytes i zero h = λ j l. absurd (omega arith)
zero_run-RunOf bytes i (suc cnt) h =
    subst (λ b. RunOf bytes i (suc cnt) (tested b (zero_run bytes (suc i) cnt)))
      (sym (get_elem-inside bytes i (omega arith)))
      (elim (Bool-cases (get_or bytes i 0 == 0)) [
        | inl z ↦ rw z (
            longer bytes i cnt (zero_run bytes (suc i) cnt) (ground arith)
              (zero_run-RunOf bytes (suc i) cnt (omega arith)))
        | inr n ↦ rw n (λ all.
            ground (arith, all 0 (omega arith), ap (λ (t : ℕ). get_or bytes t 0) (at_start i)))
      ])
  where
    at_start : (i : ℕ) → i + 0 ≡ i
    at_start i = omega arith

-- Code point `k` is the first one of zeros, and `last` its last byte; or there is none.
pub record First (bytes : List ℕ) (n_bytes sz last : ℕ) : Type 0 where
  pub k : ℕ
  pub inside : k * sz + sz ≤ n_bytes
  pub last_byte : last ≡ k * sz + sz - 1
  pub zeros : Zeros bytes (k * sz) sz
  pub before : (j : ℕ) → j < k → ¬ (Zeros bytes (j * sz) sz)

abbrev pub TermOf : List ℕ → ℕ → ℕ → Term → Type 0
TermOf bytes n_bytes sz (found last) = First bytes n_bytes sz last
TermOf bytes n_bytes sz absent = (k : ℕ) → k * sz + sz ≤ n_bytes → ¬ (Zeros bytes (k * sz) sz)
TermOf bytes n_bytes sz out_of_bounds = ⊥

module _ (bytes : List ℕ) (n_bytes m sz : ℕ) (whole : n_bytes ≡ m * sz)
    (there : n_bytes ≤ length bytes) (z : 0 < sz) where
  one_more :
      (k : ℕ)
      → ((j : ℕ) → j < k → ¬ (Zeros bytes (j * sz) sz))
      → ¬ (Zeros bytes (k * sz) sz)
      → (j : ℕ) → j < suc k
      → ¬ (Zeros bytes (j * sz) sz)
  one_more k before h j l = elim (Bool-cases (j == k)) [
    | inl same ↦ subst (λ (t : ℕ). ¬ (Zeros bytes (t * sz) sz)) (sym (ground arith)) h
    | inr other ↦ before j (ground arith)
  ]

  times-le : (a b : ℕ) → a ≤ b → a * sz ≤ b * sz
  times-le a b h = mul-le-mul_right sz h

  times-lt : (a b : ℕ) → a * sz < b * sz → a < b
  times-lt a b h = elim (Bool-cases (ltb a b)) [
    | inl l ↦ ground arith
    | inr n ↦ absurd (let c : b * sz ≤ a * sz = times-le b a (ground arith) in omega arith)
  ]

  -- Behind the last code point there is none.
  no_more :
      (k : ℕ)
      → n_bytes ≤ k * sz
      → ((j : ℕ) → j < k → ¬ (Zeros bytes (j * sz) sz))
      → TermOf bytes n_bytes sz absent
  no_more k end before j l = before j (times-lt j k (omega arith))

  room : (k : ℕ) → k * sz < n_bytes → k * sz + sz ≤ n_bytes
  room k h =
      let c : suc k * sz ≤ m * sz = times-le (suc k) m (times-lt k m (omega arith)) in omega arith

  scanned-TermOf :
      (k : ℕ) (r : Option Bool) (next : Term)
      → k * sz + sz ≤ n_bytes
      → ((j : ℕ) → j < k → ¬ (Zeros bytes (j * sz) sz))
      → RunOf bytes (k * sz) sz r
      → (((j : ℕ) → j < suc k → ¬ (Zeros bytes (j * sz) sz)) → TermOf bytes n_bytes sz next)
      → TermOf bytes n_bytes sz (scanned r (k * sz + sz - 1) next)
  scanned-TermOf k none next i before h rest = h
  scanned-TermOf k (some true) next i before h rest = record {
    k = k;
    inside = i;
    last_byte = refl;
    zeros = h;
    before = before;
  }
  scanned-TermOf k (some false) next i before h rest = rest (λ j l. one_more k before h j l)

  scan-TermOf :
      (fuel k : ℕ)
      → n_bytes ≤ fuel + k * sz
      → ((j : ℕ) → j < k → ¬ (Zeros bytes (j * sz) sz))
      → TermOf bytes n_bytes sz (scan fuel bytes n_bytes sz (k * sz))
  unfolding scan
  scan-TermOf zero k enough before = no_more k (omega arith) before
  scan-TermOf (suc fuel) k enough before = elim (Bool-cases (ltb (k * sz) n_bytes)) [
    | inl more ↦
        let there' = room k (ground arith) in
        let next : suc k * sz ≡ k * sz + sz = omega arith in
        rw more (
          scanned-TermOf k (zero_run bytes (k * sz) sz) _ there' before
            (zero_run-RunOf bytes (k * sz) sz (omega arith))
            (λ before'.
              subst (λ t. TermOf bytes n_bytes sz (scan fuel bytes n_bytes sz t)) next
                (scan-TermOf fuel (suc k) (omega arith) before')))
    | inr end ↦ rw end (no_more k (ground arith) before)
  ]

codepoint_size-pos : (enc : Encoding) → 0 < encoding_to_codepoint_size enc
unfolding encoding_to_codepoint_size
codepoint_size-pos utf8 = omega arith
codepoint_size-pos utf16be = omega arith
codepoint_size-pos utf16le = omega arith
codepoint_size-pos utf32be = omega arith
codepoint_size-pos utf32le = omega arith

-- In a number of bytes that the encoding's code points divide, and that are there, the search gives the last byte of the first code point of zeros, aligned from the start on, or NULL where there is none, and reads no byte behind them.
pub find_null_term-TermOf :
    (bytes : List ℕ) (n_bytes m : ℕ) (enc : Encoding)
    → n_bytes ≡ m * encoding_to_codepoint_size enc
    → n_bytes ≤ length bytes
    → TermOf bytes n_bytes (encoding_to_codepoint_size enc) (find_null_term bytes n_bytes enc)
unfolding find_null_term
find_null_term-TermOf bytes n_bytes m enc whole there =
    let sz = encoding_to_codepoint_size enc in
    let start : 0 * sz ≡ 0 = omega arith in
    subst (λ t. TermOf bytes n_bytes sz (scan n_bytes bytes n_bytes sz t)) start
      (scan-TermOf bytes n_bytes m sz whole there (codepoint_size-pos enc) n_bytes 0 (omega arith)
        (λ j l. absurd (omega arith)))
